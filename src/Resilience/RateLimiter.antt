-- ===== src/Resilience/RateLimiter.antt =====
-- hydra/resilience/rate_limiter.py: a bucket of tokens that fills with time. The lock makes each call of
-- `acquire` one after another; the priority is not read.
use hydra_engine.Base.{
  ℕ, zero, suc, ◌≡◌, refl, true, false, Option, none, some, ◌+◌, if◌then◌else◌, arith, Bool-cases,
  inl, inr, ◌⊎◌,
}
use hydra_engine.Float.{Float, IsOrdered, zero_float, min_float}

pub record Limiter (F : Type 0) : Type 0 where
  pub rate : F
  pub capacity : F
  pub tokens : F
  pub last_refill : F

-- How a call of `acquire` ends: it returns, it raises and frees the lock, or the fuel runs out.
pub data Waited (F : Type 0) : Type 0 where
  returned : Limiter F → Waited F
  zero_division out_of_fuel : Waited F

module _ {F : Type 0} (f : Float F) where
  -- `__init__` at the time `now`
  abbrev pub new_limiter : F → F → F → Limiter F
  new_limiter rate capacity now = record {
    rate = rate;
    capacity = capacity;
    tokens = capacity;
    last_refill = now;
  }

  -- `now` is what the monotonic clock says.
  unfoldable pub refill : F → Limiter F → Limiter F
  refill now l = record l {
    tokens = min_float f l.capacity (f.add l.tokens (f.mul (f.sub now l.last_refill) l.rate));
    last_refill = now;
  }

  -- `(tokens - self._tokens) / self.rate`, in seconds; `none` is a ZeroDivisionError.
  unfoldable pub wait_time : F → Limiter F → Option F
  wait_time want l =
      if f.eq l.rate (zero_float f) then none else some (f.div (f.sub want l.tokens) l.rate)

  -- The loop of `acquire`, with fuel. `clock n` is what the clock says at the n-th refill; the sleep in
  -- between only lets time pass, at least the time it is given, which is not read again.
  unfoldable pub wait_loop : ℕ → (ℕ → F) → ℕ → F → Limiter F → Waited F
  unfolding wait_time
  wait_loop zero clock n want l = out_of_fuel
  wait_loop (suc fuel) clock n want l =
      let rest = wait_loop fuel clock (suc n) want (refill (clock (suc n)) l) in
      if f.lt l.tokens want
      then elim (wait_time want l) [ none ↦ zero_division | some wait ↦ rest ]
      else returned (record l { tokens = f.sub l.tokens want })

  unfoldable pub acquire : ℕ → (ℕ → F) → F → Limiter F → Waited F
  acquire fuel clock want l = wait_loop fuel clock 0 want (refill (clock 0) l)

  -- The limiter after the n-th refill of a call that only waits.
  unfoldable pub refilled : (ℕ → F) → ℕ → Limiter F → Limiter F
  refilled clock zero l = refill (clock 0) l
  refilled clock (suc n) l = refill (clock (suc n)) (refilled clock n l)

module _ {F : Type 0} (f : Float F) where
  -- After a refill the bucket holds at most its capacity.
  refill-le :
      (o : IsOrdered f) (now : F) (l : Limiter F) → f.le (refill f now l).tokens l.capacity ≡ true
  unfolding refill
  refill-le o now l = ground (
    arith,
    o.le_refl l.capacity,
    o.le_of_lt (f.add l.tokens (f.mul (f.sub now l.last_refill) l.rate)) l.capacity,
  )

  capacity-refill : (now : F) (l : Limiter F) → (refill f now l).capacity ≡ l.capacity
  unfolding refill
  capacity-refill now l = refl

  too_much :
      (o : IsOrdered f) (t c want : F) → f.le t c ≡ true → f.lt c want ≡ true → f.lt t want ≡ true
  too_much o t c want h k = elim (Bool-cases (f.lt t want)) [
    | inl yes' ↦ yes'
    | inr no' ↦ ground (arith, o.le_of_not_lt t want, o.le_trans want t c, o.not_lt_of_le want c)
  ]

  wait_loop-stuck :
      (o : IsOrdered f) (fuel : ℕ) (clock : ℕ → F) (n : ℕ) (want : F) (l : Limiter F)
      → f.lt l.capacity want ≡ true
      → f.le l.tokens l.capacity ≡ true
      → f.eq l.rate (zero_float f) ≡ false
      → wait_loop f fuel clock n want l ≡ out_of_fuel
  unfolding wait_loop wait_time refill
  wait_loop-stuck o zero clock n want l big le runs = refl
  wait_loop-stuck o (suc fuel) clock n want l big le runs =
      rw (too_much o l.tokens l.capacity want le big, runs)
        (wait_loop-stuck o fuel clock (suc n) want (refill f (clock (suc n)) l) big
          (refill-le o (clock (suc n)) l) runs)

  -- A request for more tokens than the capacity, at a rate that is not 0, neither returns nor raises,
  -- whatever the clock says: no amount of fuel is enough.
  pub acquire_never :
      (o : IsOrdered f) (fuel : ℕ) (clock : ℕ → F) (want : F) (l : Limiter F)
      → f.lt l.capacity want ≡ true
      → f.eq l.rate (zero_float f) ≡ false
      → acquire f fuel clock want l ≡ out_of_fuel
  unfolding acquire refill
  acquire_never o fuel clock want l big runs =
      wait_loop-stuck o fuel clock 0 want (refill f (clock 0) l) big (refill-le o (clock 0) l) runs

  -- The limiter after the tokens are taken.
  abbrev pub served : F → Limiter F → Limiter F
  served want l = record l { tokens = f.sub l.tokens want }

  rate-refilled : (clock : ℕ → F) (n : ℕ) (l : Limiter F) → (refilled f clock n l).rate ≡ l.rate
  unfolding refilled refill
  rate-refilled clock zero l = refl
  rate-refilled clock (suc n) l = rate-refilled clock n l

  wait_loop-returns :
      (clock : ℕ → F) (want : F) (l : Limiter F) (n k : ℕ)
      → f.lt (refilled f clock (k + n) l).tokens want ≡ false
      → (k ≡ 0) ⊎ (f.eq l.rate (zero_float f) ≡ false)
      → (taken : Limiter F) × (wait_loop f (suc k) clock n want (refilled f clock n l)
          ≡ returned taken)
  unfolding wait_loop wait_time refilled
  wait_loop-returns clock want l n zero h runs = (served want (refilled f clock n l), ground arith)
  wait_loop-returns clock want l n (suc k) h (inl none_left) = absurd (ground arith)
  wait_loop-returns clock want l n (suc k) h (inr runs) =
      elim (Bool-cases (f.lt (refilled f clock n l).tokens want)) [
        | inl yes' ↦
            let (taken, p) = wait_loop-returns clock want l (suc n) k (ground arith) (inr runs) in
            (taken, ground (arith, rate-refilled clock n l))
        | inr no' ↦ (served want (refilled f clock n l), ground arith)
      ]

  wait_loop-taken :
      (clock : ℕ → F) (want : F) (l : Limiter F) (fuel n : ℕ) {taken : Limiter F}
      → wait_loop f fuel clock n want (refilled f clock n l) ≡ returned taken
      → (m : ℕ) × (f.lt (refilled f clock m l).tokens want ≡ false)
        × (taken ≡ served want (refilled f clock m l))
  unfolding wait_loop wait_time refilled
  wait_loop-taken clock want l zero n h = ground arith
  wait_loop-taken clock want l (suc fuel) n h =
      elim (Bool-cases (f.lt (refilled f clock n l).tokens want)) [
        | inl yes' ↦ wait_loop-taken clock want l fuel (suc n) (ground arith)
        | inr no' ↦ (n, no', ground arith)
      ]

  -- When the bucket has enough tokens after some number of refills, and the rate is not 0 if that number
  -- is not 0, a fuel of one more than the number is enough: `acquire` returns, and it takes what was
  -- asked for out of a bucket that holds it.
  pub acquire_returns :
      (clock : ℕ → F) (want : F) (l : Limiter F) (k : ℕ)
      → f.lt (refilled f clock k l).tokens want ≡ false
      → (k ≡ 0) ⊎ (f.eq l.rate (zero_float f) ≡ false)
      → (taken : Limiter F) × (m : ℕ) × (acquire f (suc k) clock want l ≡ returned taken)
        × (f.lt (refilled f clock m l).tokens want ≡ false)
        × (taken ≡ served want (refilled f clock m l))
  unfolding acquire refilled
  acquire_returns clock want l k h runs =
      let (taken, p) = wait_loop-returns clock want l 0 k (ground arith) runs in
      let (m, enough, q) = wait_loop-taken clock want l (suc k) 0 p in (taken, m, p, enough, q)
