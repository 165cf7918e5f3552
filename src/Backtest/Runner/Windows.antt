-- ===== src/Backtest/Runner/Windows.antt =====
-- What each round of the backtest can see.
use hydra_engine.Base.{
  ℕ, zero, suc, ◌+◌, ◌-◌, ◌≤◌, ◌<◌, ◌≡◌, refl, ap, inl, inr, Bool-cases, ◌∙◌, Bool, true, false,
  ◌&&◌, Option, none, some, List, [], ◌∷◌, ◌++◌, length, take, drop, get_last?, leb, arith,
  length-take, length-drop,
}
use native.Mathlib.Decide.{dec_lt}
use hydra_engine.Float.{Float}
use hydra_engine.Exec.{and_then_congr}
use hydra_engine.Candle.{Candle}
use hydra_engine.Backtest.Broker.{Broker}
use hydra_engine.Backtest.Runner.{Runner, warmup, candle_at, window, first_index, round, rounds}

module _ {F : Type 0} where
  take-append : (n : ℕ) (xs ys : List (Candle F)) → n ≤ length xs → take n (xs ++ ys) ≡ take n xs
  take-append zero xs ys h = refl
  take-append (suc n) [] ys h = elim h [ ]
  take-append (suc n) (x ∷ xs) ys h = ap (◌∷◌ x) (take-append n xs ys (omega arith))

  drop-append :
      (n : ℕ) (xs ys : List (Candle F)) → n ≤ length xs → drop n (xs ++ ys) ≡ drop n xs ++ ys
  drop-append zero xs ys h = refl
  drop-append (suc n) [] ys h = elim h [ ]
  drop-append (suc n) (x ∷ xs) ys h = drop-append n xs ys (omega arith)

  candle_at-append :
      (xs ys : List (Candle F)) (i : ℕ) → i < length xs → candle_at (xs ++ ys) i ≡ candle_at xs i
  unfolding candle_at
  candle_at-append [] ys i h = elim h [ ]
  candle_at-append (x ∷ xs) ys zero h = refl
  candle_at-append (x ∷ xs) ys (suc i) h = candle_at-append xs ys i (omega arith)

  window-append :
      (xs ys : List (Candle F)) (i : ℕ)
      → i < length xs
      → warmup ≤ i + 1
      → window (xs ++ ys) i ≡ window xs i
  unfolding window
  window-append xs ys i h k = rw (drop-append (i + 1 - warmup) xs ys (omega arith)) (
      take-append warmup (drop (i + 1 - warmup) xs) ys
        (omega (arith, length-drop (i + 1 - warmup) xs)))

  last-take :
      (n : ℕ) (xs : List (Candle F)) → n < length xs → get_last? (take (suc n) xs) ≡ candle_at xs n
  unfolding candle_at
  last-take n [] h = elim h [ ]
  last-take zero (x ∷ xs) h = refl
  last-take (suc n) (x ∷ []) h = absurd (omega arith)
  last-take (suc n) (x ∷ (y ∷ ys)) h = last-take n (y ∷ ys) (omega arith)

  candle_at-drop : (k i : ℕ) (xs : List (Candle F)) → candle_at (drop k xs) i ≡ candle_at xs (k + i)
  unfolding candle_at
  candle_at-drop zero i xs = ground arith
  candle_at-drop (suc k) i [] = refl
  candle_at-drop (suc k) i (x ∷ xs) = ground (arith, candle_at-drop k i xs)

  -- In every round the calculator gets exactly as many candles as it needs, the last of which is the
  -- candle of the round.
  pub window_exact :
      (candles : List (Candle F)) (i : ℕ)
      → warmup ≤ i
      → i < length candles
      → (length (window candles i) ≡ warmup) × (get_last? (window candles i) ≡ candle_at candles i)
  unfolding window
  window_exact candles i h k =
      let rest = drop (i + 1 - warmup) candles in
      let long : warmup ≤ length rest = omega (arith, length-drop (i + 1 - warmup) candles) in
      (
        length-take warmup rest long,
        last-take 209 rest (omega arith)
            ∙ candle_at-drop (i + 1 - warmup) 209 candles
            ∙ ap (candle_at candles) (omega arith),
      )

  -- The candle is there, and not before `since`.
  abbrev pub is_late : ℕ → Option (Candle F) → Bool
  is_late since none = false
  is_late since (some c) = leb since c.open_time

  -- The index that the search returns is that of a candle that is neither before `since` nor within
  -- the warm-up.
  pub first_index_exact :
      (since i : ℕ) (cs : List (Candle F)) {start : ℕ}
      → first_index since i cs ≡ some start
      → (i ≤ start)
        × (warmup ≤ start)
        × (start < i + length cs)
        × (is_late since (candle_at cs (start - i)) ≡ true)
  unfolding first_index candle_at
  first_index_exact since i [] h = ground arith
  first_index_exact since i (c ∷ cs) {start} h =
      elim (Bool-cases (leb since c.open_time && leb warmup i)) [
        | inl hit ↦
            let here : start - i ≡ 0 = ground arith in
            (ground arith, ground arith, ground arith, rw here (ground arith))
        | inr miss ↦
            let later = first_index_exact since (suc i) cs {start = start} (ground arith) in
            let step : start - i ≡ suc (start - suc i) = omega (arith, later.0) in
            (omega (arith, later.0), later.1, omega (arith, later.2), rw step later.3)
      ]

  -- No candle between the warm-up and the index that the search returns is late enough.
  pub first_index_least :
      (since i : ℕ) (cs : List (Candle F)) (j : ℕ) {start : ℕ}
      → first_index since i cs ≡ some start
      → i ≤ j
      → warmup ≤ j
      → j < start
      → is_late since (candle_at cs (j - i)) ≡ false
  unfolding first_index candle_at
  first_index_least since i [] j h a b l = refl
  first_index_least since i (c ∷ cs) j {start} h a b l =
      elim (Bool-cases (leb since c.open_time && leb warmup i)) [
        | inl hit ↦ absurd (ground arith)
        | inr miss ↦ elim (dec_lt i j) [
          | yes more ↦
              let step : j - i ≡ suc (j - suc i) = omega arith in
              rw step (
                first_index_least since (suc i) cs j {start = start} (ground arith) (omega arith) b
                  l)
          | no same ↦ let here : j - i ≡ 0 = omega arith in rw here (ground arith)
        ]
      ]

module _ {F : Type 0} (f : Float F) (r : Runner F) where
  round-append :
      (xs ys : List (Candle F)) (i : ℕ) (b : Broker F)
      → i < length xs
      → warmup ≤ i
      → round f r (xs ++ ys) i b ≡ round f r xs i b
  unfolding round
  round-append xs ys i b h k =
      rw (candle_at-append xs ys i h, window-append xs ys i h (omega arith))

  -- No look-ahead: rounds that stay within the first candles come out the same whatever candles follow.
  pub rounds_no_lookahead :
      (xs ys : List (Candle F)) (n i : ℕ) (b : Broker F)
      → warmup ≤ i
      → i + n ≤ length xs
      → rounds f r (xs ++ ys) n i b ≡ rounds f r xs n i b
  unfolding rounds
  rounds_no_lookahead xs ys zero i b h k = refl
  rounds_no_lookahead xs ys (suc n) i b h k = rw (round-append xs ys i b (omega arith) h) (
      and_then_congr (round f r xs i b) (rounds f r (xs ++ ys) n (suc i)) (rounds f r xs n (suc i))
        (λ b'. rounds_no_lookahead xs ys n (suc i) b' (omega arith) (omega arith)))
