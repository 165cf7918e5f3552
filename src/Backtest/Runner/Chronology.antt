-- ===== src/Backtest/Runner/Chronology.antt =====
-- Candles in the order of time.
use hydra_engine.Base.{
  ℕ, zero, suc, ◌≤◌, ◌≡◌, inl, inr, Bool, Bool-cases, Option, none, some, List, [], ◌∷◌, drop,
  filter, get_last?, leb, arith, All,
}
use mathlib.Core.Path.{subst}
use mathlib.Core.Option.{some-injective}
use hydra_engine.Candle.{Candle}
use hydra_engine.Backtest.Runner.{candle_at}

-- Candles in the order of time, the first no earlier than `from`; the store returns them so.
abbrev pub Chronological : {F : Type 0} → ℕ → List (Candle F) → Type 0
Chronological from [] = Unit
Chronological from (c ∷ cs) = (from ≤ c.open_time) × Chronological c.open_time cs

-- The time of a candle, if there is one.
abbrev pub time_at : {F : Type 0} → ℕ → Option (Candle F) → ℕ
time_at from none = from
time_at from (some c) = c.open_time

module _ {F : Type 0} where
  Chronological-mono :
      (from later : ℕ) (cs : List (Candle F))
      → from ≤ later
      → Chronological later cs
      → Chronological from cs
  Chronological-mono from later [] l h = tt
  Chronological-mono from later (c ∷ cs) l h = (omega arith, h.1)

  pub filter-Chronological :
      (p : Candle F → Bool) (from : ℕ) (cs : List (Candle F))
      → Chronological from cs
      → Chronological from (filter p cs)
  filter-Chronological p from [] h = tt
  filter-Chronological p from (c ∷ cs) h = elim (Bool-cases (p c)) [
    | inl keep ↦ rw keep (h.0, filter-Chronological p c.open_time cs h.1)
    | inr skip ↦
        rw skip (filter-Chronological p from cs (Chronological-mono from c.open_time cs h.0 h.1))
  ]

  -- The candle at an index comes next, and the others after it.
  pub drop-Chronological :
      (now i : ℕ) (cs : List (Candle F))
      → Chronological now (drop i cs)
      → (now ≤ time_at now (candle_at cs i))
        × Chronological (time_at now (candle_at cs i)) (drop (suc i) cs)
  unfolding candle_at
  drop-Chronological now i [] h = (omega arith, tt)
  drop-Chronological now zero (c ∷ cs) h = h
  drop-Chronological now (suc i) (c ∷ cs) h = drop-Chronological now i cs h

  -- No candle is later than the last one.
  pub last-Chronological :
      (from : ℕ) (cs : List (Candle F)) (last : Candle F)
      → get_last? cs ≡ some last
      → Chronological from cs
      → (from ≤ last.open_time) × All (λ c. c.open_time ≤ last.open_time) cs
  last-Chronological from [] last e h = cc
  last-Chronological from (c ∷ []) last e h = ground arith
  last-Chronological from (c ∷ (d ∷ ds)) last e h =
      let rest = last-Chronological c.open_time (d ∷ ds) last e h.1 in
      (omega (arith, rest.0), (rest.0, rest.1))

  pub time_at-le :
      (now to i : ℕ) (cs : List (Candle F))
      → now ≤ to
      → All (λ c. c.open_time ≤ to) cs
      → time_at now (candle_at cs i) ≤ to
  unfolding candle_at
  time_at-le now to i [] l h = l
  time_at-le now to zero (c ∷ cs) l h = h.0
  time_at-le now to (suc i) (c ∷ cs) l h = time_at-le now to i cs l h.1

  pub filter-until :
      (until : ℕ) (cs : List (Candle F))
      → All (λ c. c.open_time ≤ until) (filter (λ c. leb c.open_time until) cs)
  filter-until until [] = tt
  filter-until until (c ∷ cs) = elim (Bool-cases (leb c.open_time until)) [
    | inl keep ↦ rw keep (ground arith, filter-until until cs)
    | inr skip ↦ rw skip (filter-until until cs)
  ]

  pub last-All :
      (P : Candle F → Type 0) (cs : List (Candle F)) (last : Candle F)
      → get_last? cs ≡ some last
      → All P cs
      → P last
  last-All P [] last e h = cc
  last-All P (c ∷ []) last e h = subst P (some-injective c last e) h.0
  last-All P (c ∷ (d ∷ ds)) last e h = last-All P (d ∷ ds) last e h.1

  pub drop_all-Chronological :
      (from i : ℕ) (cs : List (Candle F)) → Chronological from cs → Chronological from (drop i cs)
  drop_all-Chronological from zero cs h = h
  drop_all-Chronological from (suc i) [] h = tt
  drop_all-Chronological from (suc i) (c ∷ cs) h =
      Chronological-mono from c.open_time (drop i cs) h.0
        (drop_all-Chronological c.open_time i cs h.1)
