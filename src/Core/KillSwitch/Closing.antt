-- ===== src/Core/KillSwitch/Closing.antt =====
-- The two loops of the kill switch against the traces of the calls.
use hydra_engine.Base.{
  ◌≡◌, refl, sym, ap, ◌∙◌, Option, none, some, List, [], ◌∷◌, ◌++◌, arith, inl, inr,
}
use mathlib.Core.Path.{subst}
use mathlib.Core.List.{append_assoc, append-nil}
use hydra_engine.Text.{codes}
use hydra_engine.Json.{Json, Fields, str, obj, member?}
use hydra_engine.Exec.{Result, ok, err, outcome_cases, Result-cases, ok-injective}
use hydra_engine.Core.Types.{Market, market_name, Error, exchange_error}
use hydra_engine.Core.Orders.{Venue, OrderArgs}
use hydra_engine.Core.OrderQueue.{subscript, fields_of}
use hydra_engine.Core.KillSwitch.{
  Failure, cancel_failed, close_failed, Progress, find_exchange, cancel_failures, cancel_orders,
  order_outcome, send_close, close_at, close_fields, close_position, close_positions, close_error,
  close_args,
}
use hydra_engine.Core.KillSwitch.Trace.{
  IsListed, Cancelled, all_asked, cancelled, failed, Outcome, unconnected, closed, refused,
  incomplete, Closed, all_closed, next,
}
use hydra_engine.Core.KillSwitch.Reading.{
  some-injective, fields_of-obj, subscript-member, find_exchange_sound, find_exchange-none,
  close_args-IsClosing, close_args-incomplete,
}

module _ {F X : Type 0} (venue : Venue F X) where
  -- What a part of the run added to the lists.
  abbrev pub Adds : Progress F → Progress F → List (Json F) → List (Failure F) → Type 0
  Adds p p' cs es = (p'.closed ≡ p.closed ++ cs) × (p'.errors ≡ p.errors ++ es)

  pub cancel_orders-Cancelled :
      (ms : List Market) (errors : List (Failure F)) (x : X)
      → (es : List (Failure F)) × Cancelled venue ms x es (cancel_orders venue ms errors x).1
        × ((cancel_orders venue ms errors x).0 ≡ errors ++ es)
  unfolding cancel_orders
  cancel_orders-Cancelled [] errors x = ([], all_asked, sym (append-nil errors))
  cancel_orders-Cancelled (m ∷ ms) errors x = elim (outcome_cases (venue.cancel_all m x)) [
    | inl (e, p) ↦
        let (es, run, added) =
          cancel_orders-Cancelled ms (errors ++ cancel_failures m (venue.cancel_all m x).0)
            (venue.cancel_all m x).1 in
        (
          cancel_failed m e ∷ es,
          failed p run,
          added
              ∙ (ap (λ r. errors ++ cancel_failures m r.0 ++ es) p
                  ∙ append_assoc errors (cancel_failed m e ∷ []) es),
        )
    | inr (done, p) ↦
        let (es, run, added) =
          cancel_orders-Cancelled ms (errors ++ cancel_failures m (venue.cancel_all m x).0)
            (venue.cancel_all m x).1 in
        (
          es,
          cancelled p run,
          added
              ∙ (ap (λ r. errors ++ cancel_failures m r.0 ++ es) p
                  ∙ ap (λ old. old ++ es) (append-nil errors)),
        )
  ]

  close_error-Adds :
      (d : Fields F) (e : Error F) (p : Progress F) {p' : Progress F}
      → close_error d e p ≡ ok p'
      → (symbol : Json F) × (subscript (codes "symbol") d ≡ ok symbol)
        × Adds p p' [] (close_failed symbol e ∷ [])
  unfolding close_error
  close_error-Adds d e p h = elim (Result-cases (subscript (codes "symbol") d)) [
    | inl (e', q) ↦ absurd (ground arith)
    | inr (symbol, q) ↦ (symbol, q, (ground (arith, append-nil p.closed), ground arith))
  ]

  module _ (ms : List Market) where
    abbrev Settled : Json F → Progress F → X → Progress F → X → Type 0
    Settled pos p x p' x' =
        (cs : List (Json F)) × (es : List (Failure F)) × Outcome venue ms pos x cs es x'
        × Adds p p' cs es

    send_close-Settled :
        (m : Market) (d : Fields F) (p : Progress F) (a : Result (Error F) (OrderArgs F)) (x : X)
        {p' : Progress F} {x' : X}
        → IsListed m ms
        → member? (codes "market") d ≡ some (str (market_name m))
        → close_args d ≡ a
        → send_close venue m d p a x ≡ (ok p', x')
        → Settled (obj d) p x p' x'
    send_close-Settled m d p (err e) x {p'} there at args h =
        let (symbol, read, added) = close_error-Adds d e p {p' = p'} (ap (λ t. t.0) h) in
        subst (λ y. Settled (obj d) p x p' y) (ap (λ t. t.1) h)
          (
            [],
            close_failed symbol e ∷ [],
            incomplete m there at (subscript-member (codes "symbol") d read)
                (close_args-incomplete d read args),
            added,
          )
    send_close-Settled m d p (ok args) x {p'} there at e h =
        let closing = close_args-IsClosing d e in
        elim (outcome_cases (venue.create_order m args x)) [
          | inl (e', q) ↦
              let (symbol, read, added) =
                close_error-Adds d (exchange_error e') p {p' = p'}
                  (ap (λ r. order_outcome d args.symbol p r.0) (sym q) ∙ ap (λ t. t.0) h) in
              let same : symbol ≡ args.symbol =
                some-injective
                  (sym (subscript-member (codes "symbol") d read) ∙ closing.its_symbol) in
              subst (λ y. Settled (obj d) p x p' y) (ap (λ t. t.1) h)
                (
                  [],
                  close_failed args.symbol (exchange_error e') ∷ [],
                  refused m args there at closing q,
                  subst (λ symbol. Adds p p' [] (close_failed symbol (exchange_error e') ∷ [])) same
                      added,
                )
          | inr (raw, q) ↦
              let same : record p { closed = p.closed ++ args.symbol ∷ [] } ≡ p' =
                ok-injective {E = Error F} (record p { closed = p.closed ++ args.symbol ∷ [] }) p'
                  (ap (λ r. order_outcome d args.symbol p r.0) (sym q) ∙ ap (λ t. t.0) h) in
              subst (λ y. Settled (obj d) p x p' y) (ap (λ t. t.1) h)
                (
                  args.symbol ∷ [],
                  [],
                  closed m args there at closing q,
                  subst (λ p'. Adds p p' (args.symbol ∷ []) []) same
                      (refl, sym (append-nil p.errors)),
                )
        ]

    close_at-Settled :
        (found : Option Market) (market : Json F) (d : Fields F) (p : Progress F) (x : X)
        {p' : Progress F} {x' : X}
        → find_exchange market ms ≡ found
        → member? (codes "market") d ≡ some market
        → close_at venue found d p x ≡ (ok p', x')
        → Settled (obj d) p x p' x'
    close_at-Settled none market d p x {p'} unknown at h =
        subst (λ y. Settled (obj d) p x p' y) (ap (λ t. t.1) h)
          (
            [],
            [],
            unconnected at (find_exchange-none market ms unknown),
            subst (λ p'. Adds p p' [] []) (ok-injective {E = Error F} p p' (ap (λ t. t.0) h))
                (sym (append-nil p.closed), sym (append-nil p.errors)),
          )
    close_at-Settled (some m) market d p x known at h =
        let (there, name) = find_exchange_sound market ms known in
        send_close-Settled m d p (close_args d) x there (at ∙ ap some name) refl h

    close_fields-Settled :
        (d : Fields F) (p : Progress F) (x : X) {p' : Progress F} {x' : X}
        → close_fields venue ms p (ok d) x ≡ (ok p', x')
        → Settled (obj d) p x p' x'
    close_fields-Settled d p x h = elim (Result-cases (subscript (codes "market") d)) [
      | inl (e, q) ↦ absurd (ground arith)
      | inr (market, q) ↦
          close_at-Settled (find_exchange market ms) market d p x refl
            (subscript-member (codes "market") d q) (ground arith)
    ]

    close_position-Settled :
        (pos : Json F) (p : Progress F) (x : X) {p' : Progress F} {x' : X}
        → close_position venue ms pos p x ≡ (ok p', x')
        → Settled pos p x p' x'
    unfolding close_position
    close_position-Settled pos p x {p'} {x'} h = elim (Result-cases (fields_of pos)) [
      | inl (e, q) ↦ absurd (ground arith)
      | inr (d, q) ↦
          subst (λ pos. Settled pos p x p' x') (sym (fields_of-obj pos q))
            (close_fields-Settled d p x (ap (λ r. close_fields venue ms p r x) (sym q) ∙ h))
    ]

    add_twice :
        {A : Type 0} (xs ys zs : List A) {us vs : List A}
        → us ≡ xs ++ ys
        → vs ≡ us ++ zs
        → vs ≡ xs ++ (ys ++ zs)
    add_twice xs ys zs e k = k ∙ (ap (λ us. us ++ zs) e ∙ append_assoc xs ys zs)

    pub close_positions-Closed :
        (ps : List (Json F)) (p : Progress F) (x : X) {p' : Progress F} {x' : X}
        → close_positions venue ms ps p x ≡ (ok p', x')
        → (cs : List (Json F)) × (es : List (Failure F)) × Closed venue ms ps x cs es x'
          × Adds p p' cs es
    unfolding close_positions
    close_positions-Closed [] p x {p'} h =
        subst
          (λ y.
            (cs : List (Json F)) × (es : List (Failure F)) × Closed venue ms [] x cs es y
            × Adds p p' cs es)
          (ap (λ t. t.1) h)
          (
            [],
            [],
            all_closed,
            subst (λ p'. Adds p p' [] []) (ok-injective {E = Error F} p p' (ap (λ t. t.0) h))
                (sym (append-nil p.closed), sym (append-nil p.errors)),
          )
    close_positions-Closed (pos ∷ rest) p x {p'} {x'} h =
        elim (outcome_cases (close_position venue ms pos p x)) [
          | inl (e, q) ↦ absurd (ground arith)
          | inr (p1, q) ↦
              let (cs, es, one, added) = close_position-Settled pos p x q in
              let (cs', es', others, added') =
                close_positions-Closed rest p1 (close_position venue ms pos p x).1 {p' = p'}
                  {x' = x'} (ground arith) in
              (
                cs ++ cs',
                es ++ es',
                next one others,
                (
                  add_twice p.closed cs cs' added.0 added'.0,
                  add_twice p.errors es es' added.1 added'.1,
                ),
              )
        ]
