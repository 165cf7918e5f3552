-- ===== src/Core/KillSwitch/Reading.antt =====
-- What the kill switch reads of a position, and the order that it makes of it.
use hydra_engine.Base.{
  ◌≡◌, ◌≢◌, refl, sym, ap, ◌∙◌, ◌⊎◌, none, some, List, [], ◌∷◌, arith, inl, inr, All, Option-cases,
  Bool-cases, if◌then◌else◌,
}
use mathlib.Core.Path.{subst}
use hydra_engine.Text.{Str, codes, str_eq, str_eq_sound, str_eq_refl}
use hydra_engine.Json.{Json, Fields, null, bool, int, num, str, arr, obj, member?}
use hydra_engine.Exec.{ok, err, Result-cases, ok-injective}
use hydra_engine.Core.Types.{Market, buy, sell, market_name, Error}
use hydra_engine.Core.Orders.{OrderArgs, market_order}
use hydra_engine.Core.OrderQueue.{subscript, fields_of}
use hydra_engine.Core.KillSwitch.{find_exchange, close_side, close_args}
use hydra_engine.Core.KillSwitch.Trace.{
  IsListed, here, later, Closes, long_sold, other_bought, IsClosing,
}

pub some-injective : {A : Type 0} {a b : A} → some a ≡ some b → a ≡ b
some-injective h = cc

module _ {F : Type 0} where
  pub fields_of-obj : (j : Json F) {d : Fields F} → fields_of j ≡ ok d → j ≡ obj d
  fields_of-obj (obj d) {d = d'} h = ap obj (ok-injective d d' h)
  fields_of-obj null h = absurd (ground arith)
  fields_of-obj (bool b) h = absurd (ground arith)
  fields_of-obj (int n) h = absurd (ground arith)
  fields_of-obj (num x) h = absurd (ground arith)
  fields_of-obj (str s) h = absurd (ground arith)
  fields_of-obj (arr xs) h = absurd (ground arith)

  pub subscript-member :
      (k : Str) (d : Fields F) {v : Json F} → subscript k d ≡ ok v → member? k d ≡ some v
  subscript-member k d h = elim (Option-cases (member? k d)) [
    | inl missing ↦ ground arith
    | inr (v, there) ↦ ground arith
  ]

  pub find_exchange_sound :
      (market : Json F) (ms : List Market) {m : Market}
      → find_exchange market ms ≡ some m
      → IsListed m ms × (market ≡ str (market_name m))
  unfolding find_exchange
  find_exchange_sound (str s) [] h = ground arith
  find_exchange_sound (str s) (n ∷ ms) {m} h = elim (Bool-cases (str_eq s (market_name n))) [
    | inl yes' ↦
        let same : n ≡ m = some-injective (ground arith) in
        (
          subst (λ k. IsListed k (n ∷ ms)) same here,
          ap str (str_eq_sound s (market_name n) yes' ∙ ap market_name same),
        )
    | inr no' ↦
        let (there, name) = find_exchange_sound (str s) ms {m = m} (ground arith) in
        (later there, name)
  ]
  find_exchange_sound _ ms h = absurd (ground arith)

  pub find_exchange-none :
      (market : Json F) (ms : List Market)
      → find_exchange market ms ≡ none
      → All (λ m. market ≢ str (market_name m)) ms
  unfolding find_exchange
  find_exchange-none market [] h = tt
  find_exchange-none (str s) (n ∷ ms) h = elim (Bool-cases (str_eq s (market_name n))) [
    | inl yes' ↦ absurd (ground arith)
    | inr no' ↦ (λ e. ground (arith, str_eq_refl s), find_exchange-none (str s) ms (ground arith))
  ]
  find_exchange-none null (n ∷ ms) h = (λ e. ground arith, find_exchange-none null ms refl)
  find_exchange-none (bool b) (n ∷ ms) h = (λ e. ground arith, find_exchange-none (bool b) ms refl)
  find_exchange-none (int x) (n ∷ ms) h = (λ e. ground arith, find_exchange-none (int x) ms refl)
  find_exchange-none (num x) (n ∷ ms) h = (λ e. ground arith, find_exchange-none (num x) ms refl)
  find_exchange-none (arr x) (n ∷ ms) h = (λ e. ground arith, find_exchange-none (arr x) ms refl)
  find_exchange-none (obj x) (n ∷ ms) h = (λ e. ground arith, find_exchange-none (obj x) ms refl)

  close_side-Closes : (side : Json F) → Closes side (close_side side)
  unfolding close_side
  close_side-Closes (str s) = elim (Bool-cases (str_eq s (codes "buy"))) [
    | inl yes' ↦
        subst (λ t. Closes {F = F} (str t) (close_side {F = F} (str s)))
          (sym (str_eq_sound s (codes "buy") yes'))
          (subst (Closes (str (codes "buy"))) (sym (ap (λ b. if b then sell else buy) yes'))
            long_sold)
    | inr no' ↦
        subst (Closes (str s)) (sym (ap (λ b. if b then sell else buy) no'))
          (other_bought (λ e. ground (arith, str_eq_refl s)))
  ]
  close_side-Closes null = other_bought (λ e. ground arith)
  close_side-Closes (bool b) = other_bought (λ e. ground arith)
  close_side-Closes (int n) = other_bought (λ e. ground arith)
  close_side-Closes (num x) = other_bought (λ e. ground arith)
  close_side-Closes (arr xs) = other_bought (λ e. ground arith)
  close_side-Closes (obj d) = other_bought (λ e. ground arith)

  pub close_args-IsClosing :
      (d : Fields F) {args : OrderArgs F} → close_args d ≡ ok args → IsClosing d args
  unfolding close_args
  close_args-IsClosing d {args} h = elim (Result-cases (subscript (codes "side") d)) [
    | inl (e, p) ↦ absurd (ground arith)
    | inr (side, p) ↦ elim (Result-cases (subscript (codes "symbol") d)) [
      | inl (e, q) ↦ absurd (ground arith)
      | inr (symbol, q) ↦ elim (Result-cases (subscript (codes "qty") d)) [
        | inl (e, r) ↦ absurd (ground arith)
        | inr (qty, r) ↦
            let made : OrderArgs F = record {
              symbol = symbol;
              side = close_side side;
              order_type = market_order;
              qty = qty;
              price = null;
            } in
            subst (IsClosing d) (ok-injective {E = Error F} made args (ground arith)) (record {
              at_market = refl;
              no_price = refl;
              its_symbol = subscript-member (codes "symbol") d q;
              its_qty = subscript-member (codes "qty") d r;
              other_side = (side, subscript-member (codes "side") d p, close_side-Closes side);
            })
      ]
    ]
  ]

  pub close_args-incomplete :
      (d : Fields F) {symbol : Json F} {e : Error F}
      → subscript (codes "symbol") d ≡ ok symbol
      → close_args d ≡ err e
      → (member? (codes "side") d ≡ none) ⊎ (member? (codes "qty") d ≡ none)
  unfolding close_args
  close_args-incomplete d there h = elim (Option-cases (member? (codes "side") d)) [
    | inl missing ↦ inl missing
    | inr (side, p) ↦ elim (Option-cases (member? (codes "qty") d)) [
      | inl missing ↦ inr missing
      | inr (qty, q) ↦ absurd (ground arith)
    ]
  ]
