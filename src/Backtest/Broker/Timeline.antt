-- ===== src/Backtest/Broker/Timeline.antt =====
-- The trades of a broker in time: each closes after it opens, and before the next one opens.
use hydra_engine.Base.{ℕ, ◌≤◌, ◌≡◌, refl, Option, none, some, List, [], ◌∷◌, ◌++◌, arith, inl, inr}
use mathlib.Core.Path.{subst}
use hydra_engine.Text.{Str}
use hydra_engine.Float.{Float}
use hydra_engine.Exec.{ok, Result-cases, ok-injective}
use hydra_engine.Candle.{Candle}
use hydra_engine.Strategy.Generator.{Signal, Advice, buy_signal, sell_signal}
use hydra_engine.Backtest.Broker.{
  opened, closed, net_pnl, closed_trade, Broker, add_point, Trade, OpenPosition, EquityPoint,
  divide, open_position, close_at, close_option, close_open_position, act, on_signal,
}

-- Trades in order, the first no earlier than `from` and the last no later than `to`.
abbrev pub Between : {F : Type 0} → ℕ → ℕ → List (Trade F) → Type 0
Between from to [] = from ≤ to
Between from to (t ∷ ts) = (from ≤ t.entry_ts) × (t.entry_ts ≤ t.exit_ts) × Between t.exit_ts to ts

-- Points of the equity curve in order.
abbrev pub Rising : {F : Type 0} → ℕ → ℕ → List (EquityPoint F) → Type 0
Rising from to [] = from ≤ to
Rising from to (p ∷ ps) = (from ≤ p.ts) × Rising p.ts to ps

-- The trades end before an open position begins.
abbrev pub Settled : {F : Type 0} → ℕ → Option (OpenPosition F) → List (Trade F) → Type 0
Settled now none ts = Between 0 now ts
Settled now (some pos) ts = Between 0 pos.entry_ts ts × (pos.entry_ts ≤ now)

-- Up to the time `now`, trades do not overlap, and the equity curve runs forward.
pub record IsOrderly {F : Type 0} (now : ℕ) (b : Broker F) : Type 0 where
  pub settled : Settled now b.position b.trades
  pub rising : Rising 0 now b.equity_curve

module _ {F : Type 0} where
  Between-append :
      (from to to' : ℕ) (ts : List (Trade F)) (t : Trade F)
      → Between from to ts
      → to ≤ t.entry_ts
      → t.entry_ts ≤ t.exit_ts
      → t.exit_ts ≤ to'
      → Between from to' (ts ++ t ∷ [])
  Between-append from to to' [] t h a b c = omega arith
  Between-append from to to' (u ∷ ts) t h a b c =
      (h.0, h.1, Between-append u.exit_ts to to' ts t h.2 a b c)

  Between-mono :
      (from to to' : ℕ) (ts : List (Trade F)) → to ≤ to' → Between from to ts → Between from to' ts
  Between-mono from to to' [] l h = omega arith
  Between-mono from to to' (u ∷ ts) l h = (h.0, h.1, Between-mono u.exit_ts to to' ts l h.2)

  Rising-append :
      (from to to' : ℕ) (ps : List (EquityPoint F)) (p : EquityPoint F)
      → Rising from to ps
      → to ≤ p.ts
      → p.ts ≤ to'
      → Rising from to' (ps ++ p ∷ [])
  Rising-append from to to' [] p h a b = omega arith
  Rising-append from to to' (q ∷ ps) p h a b = (h.0, Rising-append q.ts to to' ps p h.1 a b)

  Rising-mono :
      (from to to' : ℕ) (ps : List (EquityPoint F))
      → to ≤ to'
      → Rising from to ps
      → Rising from to' ps
  Rising-mono from to to' [] l h = omega arith
  Rising-mono from to to' (q ∷ ps) l h = (h.0, Rising-mono q.ts to to' ps l h.1)

  Settled-mono :
      (now later : ℕ) (o : Option (OpenPosition F)) (ts : List (Trade F))
      → now ≤ later
      → Settled now o ts
      → Settled later o ts
  Settled-mono now later none ts l h = Between-mono 0 now later ts l h
  Settled-mono now later (some pos) ts l h = (h.0, omega arith)

  pub IsOrderly-mono :
      (now later : ℕ) (b : Broker F) → now ≤ later → IsOrderly now b → IsOrderly later b
  IsOrderly-mono now later b l v = record {
    settled = Settled-mono now later b.position b.trades l v.settled;
    rising = Rising-mono 0 now later b.equity_curve l v.rising;
  }

module _ {F : Type 0} (f : Float F) where
  add_point-IsOrderly :
      (now ts : ℕ) (b : Broker F) → now ≤ ts → IsOrderly now b → IsOrderly ts (add_point f ts b)
  add_point-IsOrderly now ts b l v = record {
    settled = Settled-mono now ts b.position b.trades l v.settled;
    rising =
        Rising-append 0 now ts b.equity_curve (record { ts = ts; equity = b.capital }) v.rising l
          (omega arith);
  }

  open_position-IsOrderly :
      (now : ℕ) (s : Signal F) (c : Candle F) (b : Broker F) {b' : Broker F}
      → b.position ≡ none
      → now ≤ c.open_time
      → IsOrderly now b
      → open_position f s c b ≡ ok b'
      → IsOrderly c.open_time b'
  unfolding open_position
  open_position-IsOrderly now s c b {b'} e l v h =
      elim (Result-cases (divide f b.trade_amount c.close)) [
        | inl (e', q) ↦ ground arith
        | inr (qty, q) ↦
            let new : opened f s c qty b ≡ b' = ground arith in
            let flat : Settled now none b.trades =
              subst (λ o. Settled now o b.trades) e v.settled in
            subst (IsOrderly c.open_time) new (record {
              settled = (Between-mono 0 now c.open_time b.trades l flat, omega arith);
              rising = Rising-mono 0 now c.open_time b.equity_curve l v.rising;
            })
      ]

  close_at-IsOrderly :
      (now ts : ℕ) (pos : OpenPosition F) (price : F) (reason : Str) (b : Broker F) {b' : Broker F}
      → b.position ≡ some pos
      → now ≤ ts
      → IsOrderly now b
      → close_at f pos price ts reason b ≡ ok b'
      → IsOrderly ts b'
  unfolding close_at
  close_at-IsOrderly now ts pos price reason b {b'} e l v h =
      elim (Result-cases (divide f (f.sub price pos.entry_price) pos.entry_price)) [
        | inl (e', q) ↦ ground arith
        | inr (ratio, q) ↦
            let net = net_pnl f pos price b in
            let trade = closed_trade f pos price ts reason net ratio in
            let new : add_point f ts (closed f net trade b) ≡ b' = ground arith in
            let held : Settled now (some pos) b.trades =
              subst (λ o. Settled now o b.trades) e v.settled in
            subst (IsOrderly ts) new (
              add_point-IsOrderly ts ts (closed f net trade b) (omega arith) (record {
                settled =
                    Between-append 0 pos.entry_ts ts b.trades trade held.0 (omega arith)
                      (omega arith) (omega arith);
                rising = Rising-mono 0 now ts b.equity_curve l v.rising;
              }))
      ]

  act-IsOrderly :
      (now : ℕ) (a : Advice) (o : Option (OpenPosition F)) (s : Signal F) (c : Candle F)
      (b : Broker F) {b' : Broker F}
      → b.position ≡ o
      → now ≤ c.open_time
      → IsOrderly now b
      → act f a o s c b ≡ ok b'
      → IsOrderly c.open_time b'
  act-IsOrderly now buy_signal none s c b e l v h = open_position-IsOrderly now s c b e l v h
  act-IsOrderly now sell_signal (some pos) s c b e l v h =
      close_at-IsOrderly now c.open_time pos c.close s.reason b e l v h
  act-IsOrderly now _ _ s c b e l v h =
      subst (IsOrderly c.open_time) (ok-injective _ _ h) (IsOrderly-mono now c.open_time b l v)

  -- From an orderly broker, a signal on a candle that is not older gives an orderly broker.
  pub on_signal-IsOrderly :
      (now : ℕ) (s : Signal F) (c : Candle F) (b : Broker F) {b' : Broker F}
      → now ≤ c.open_time
      → IsOrderly now b
      → on_signal f s c b ≡ ok b'
      → IsOrderly c.open_time b'
  unfolding on_signal
  on_signal-IsOrderly now s c b {b'} l v h = elim (Result-cases (act f s.signal b.position s c b)) [
    | inl (e, q) ↦ ground arith
    | inr (b1, q) ↦
        let new : add_point f c.open_time b1 ≡ b' = ground arith in
        subst (IsOrderly c.open_time) new (
          add_point-IsOrderly c.open_time c.open_time b1 (omega arith)
            (act-IsOrderly now s.signal b.position s c b refl l v q))
  ]

  close_at-none :
      (ts : ℕ) (pos : OpenPosition F) (price : F) (reason : Str) (b : Broker F) {b' : Broker F}
      → close_at f pos price ts reason b ≡ ok b'
      → b'.position ≡ none
  unfolding close_at
  close_at-none ts pos price reason b h = ground arith

  close_option-IsOrderly :
      (now ts : ℕ) (o : Option (OpenPosition F)) (price : F) (reason : Str) (b : Broker F)
      {b' : Broker F}
      → b.position ≡ o
      → now ≤ ts
      → IsOrderly now b
      → close_option f o price ts reason b ≡ ok b'
      → IsOrderly ts b' × (b'.position ≡ none)
  close_option-IsOrderly now ts none price reason b e l v h =
      (subst (IsOrderly ts) (ok-injective _ _ h) (IsOrderly-mono now ts b l v), ground arith)
  close_option-IsOrderly now ts (some pos) price reason b e l v h =
      (close_at-IsOrderly now ts pos price reason b e l v h, close_at-none ts pos price reason b h)

  -- So does the closing of the position, which leaves none open.
  pub close_open_position-IsOrderly :
      (now ts : ℕ) (price : F) (reason : Str) (b : Broker F) {b' : Broker F}
      → now ≤ ts
      → IsOrderly now b
      → close_open_position f price ts reason b ≡ ok b'
      → IsOrderly ts b' × (b'.position ≡ none)
  unfolding close_open_position
  close_open_position-IsOrderly now ts price reason b l v h =
      close_option-IsOrderly now ts b.position price reason b refl l v h
