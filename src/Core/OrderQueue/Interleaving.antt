-- ===== src/Core/OrderQueue/Interleaving.antt =====
-- Submissions that overlap. `submit` runs without a break up to its first `await`, the call of the
-- exchange, and again from there to its end; between the two anything else may run.
use hydra_engine.Base.{◌≡◌, Bool, true, false, none, List, [], ◌∷◌, is_some, arith, All}
use hydra_engine.Text.{Str, codes, str_eq, str_eq_refl, str_eq_iff}
use hydra_engine.Float.{Float, zero_float}
use hydra_engine.Json.{Json, dumped, text, present}
use hydra_engine.Redis.{Redis, RedisLaws}
use hydra_engine.Exec.{ok}
use hydra_engine.Core.Types.{market_name, within_limits}
use hydra_engine.Core.Keys.{idem_key, lock_key, idem_key-ne-lock_key}
use hydra_engine.Core.RiskEngine.{check_order_allowed}
use hydra_engine.Core.Orders.{OrderRequest}
use hydra_engine.Core.OrderQueue.{
  OrderQueue, OrderResult, is_blocked, has_exchange, cache_json, lock_timeout, idempotency_ttl,
}

-- The server, and the submissions that wait for the exchange.
pub record Traffic (F R : Type 0) : Type 0 where
  pub redis : R
  pub waiting : List (OrderRequest F)

abbrev pub lock_of : {F : Type 0} → OrderRequest F → Str
lock_of o = lock_key o.market o.symbol o.side

-- `o` is one of `xs`, and `ys` are the others.
pub data Takes {F : Type 0} (o : OrderRequest F)
    : List (OrderRequest F) → List (OrderRequest F) → Type 0 where
  first : {xs : List (OrderRequest F)} → Takes o (o ∷ xs) xs
  other :
      {x : OrderRequest F} {xs ys : List (OrderRequest F)}
      → Takes o xs ys
      → Takes o (x ∷ xs) (x ∷ ys)

module _ {F R : Type 0} (f : Float F) (redis : Redis F R) where
  abbrev pub try_lock : R → OrderRequest F → Bool × R
  try_lock r o = redis.set_nx_ex r (lock_of o) (text (codes "1")) lock_timeout

  -- `finally`
  abbrev pub unlock : R → OrderRequest F → R
  unlock r o = redis.delete r (lock_of o)

  pub data Step (s t : Traffic F R) : Type 0 where
    -- A submission passes the guards and takes the lock.
    begin :
        (q : OrderQueue F) (o : OrderRequest F) (r : R)
        → present (redis.get s.redis (idem_key o.idempotency_key)) ≡ none
        → is_blocked redis q s.redis ≡ false
        → try_lock s.redis o ≡ (true, r)
        → check_order_allowed f redis q.config r (market_name o.market) o.symbol (zero_float f)
          ≡ ok (true, within_limits)
        → has_exchange o.market q.exchanges ≡ true
        → t ≡ record { redis = r; waiting = o ∷ s.waiting }
        → Step s t
    -- The exchange has answered: the result is cached and the lock is deleted.
    answered :
        (o : OrderRequest F) (result : OrderResult F) (rest : List (OrderRequest F))
        → Takes o s.waiting rest
        → t ≡ record {
          redis =
              unlock
                (redis.set_ex s.redis
                  (idem_key o.idempotency_key)
                  (dumped (cache_json result))
                  idempotency_ttl)
                o;
          waiting = rest;
        }
        → Step s t
    -- The exchange has raised: the lock is deleted.
    failed :
        (o : OrderRequest F) (rest : List (OrderRequest F))
        → Takes o s.waiting rest
        → t ≡ record { redis = unlock s.redis o; waiting = rest }
        → Step s t
    -- Anything else that leaves the locks alone, submissions that end before the exchange is called
    -- among them.
    elsewhere :
        (r : R)
        → ((o : OrderRequest F) → redis.get r (lock_of o) ≡ redis.get s.redis (lock_of o))
        → t ≡ record s { redis = r }
        → Step s t

  pub data Reach (s : Traffic F R) : Traffic F R → Type 0 where
    here : Reach s s
    next : {t u : Traffic F R} → Reach s t → Step t u → Reach s u

-- No other submission waits under the lock of `o`.
abbrev pub Alone : {F : Type 0} → OrderRequest F → List (OrderRequest F) → Type 0
Alone o = All λ p. str_eq (lock_of o) (lock_of p) ≡ false

-- No two submissions wait under one lock.
abbrev pub Exclusive : {F : Type 0} → List (OrderRequest F) → Type 0
Exclusive [] = Unit
Exclusive (o ∷ os) = Alone o os × Exclusive os

module _ {F : Type 0} where
  ne_sym :
      (o p : OrderRequest F)
      → str_eq (lock_of o) (lock_of p) ≡ false
      → str_eq (lock_of p) (lock_of o) ≡ false
  ne_sym o p h =
      ground (arith, str_eq_iff (lock_of o) (lock_of p), str_eq_iff (lock_of p) (lock_of o))

  pub Takes-All :
      (P : OrderRequest F → Type 0) {o : OrderRequest F} {xs ys : List (OrderRequest F)}
      → Takes o xs ys
      → All P xs
      → P o × All P ys
  Takes-All P first h = h
  Takes-All P (other k) h = let rest = Takes-All P k h.1 in (rest.0, (h.0, rest.1))

  pub Takes-Exclusive :
      {o : OrderRequest F} {xs ys : List (OrderRequest F)}
      → Takes o xs ys
      → Exclusive xs
      → Alone o ys × Exclusive ys
  Takes-Exclusive first h = h
  Takes-Exclusive {o} (other {x} k) h =
      let rest = Takes-Exclusive k h.1 in
      let apart = Takes-All (λ p. str_eq (lock_of x) (lock_of p) ≡ false) k h.0 in
      ((ne_sym x o apart.0, rest.0), (apart.1, rest.1))

module _ {F R : Type 0} (f : Float F) (redis : Redis F R) (laws : RedisLaws f redis) where
  abbrev pub IsHeld : R → OrderRequest F → Type 0
  IsHeld r o = is_some (redis.get r (lock_of o)) ≡ true

  -- Every submission that waits holds its lock, and no two wait under one lock.
  pub record IsLocked (s : Traffic F R) : Type 0 where
    pub held : All (IsHeld s.redis) s.waiting
    pub exclusive : Exclusive s.waiting

  pub IsHeld-elsewhere :
      (r r' : R) (os : List (OrderRequest F))
      → ((o : OrderRequest F) → redis.get r' (lock_of o) ≡ redis.get r (lock_of o))
      → All (IsHeld r) os
      → All (IsHeld r') os
  IsHeld-elsewhere r r' [] e h = tt
  IsHeld-elsewhere r r' (o ∷ os) e h = (rw (e o) h.0, IsHeld-elsewhere r r' os e h.1)

  pub IsHeld-unlock :
      (r : R) (o : OrderRequest F) (os : List (OrderRequest F))
      → Alone o os
      → All (IsHeld r) os
      → All (IsHeld (unlock f redis r o)) os
  IsHeld-unlock r o [] a h = tt
  IsHeld-unlock r o (p ∷ os) a h =
      (ground (arith, laws.get-delete r (lock_of o) (lock_of p)), IsHeld-unlock r o os a.1 h.1)

  pub IsHeld-cache :
      (r : R) (k : Str) (v : Json F) (os : List (OrderRequest F))
      → All (IsHeld r) os
      → All (IsHeld (redis.set_ex r (idem_key k) (dumped v) idempotency_ttl)) os
  IsHeld-cache r k v [] h = tt
  IsHeld-cache r k v (o ∷ os) h = (
    ground (
      arith,
      laws.get-set_ex r (idem_key k) (lock_of o) (dumped v) idempotency_ttl,
      idem_key-ne-lock_key k o.market o.symbol o.side,
    ),
    IsHeld-cache r k v os h.1,
  )

  -- A lock that could be taken was free, so it is none of those that are held.
  pub IsHeld-lock :
      (r r' : R) (o : OrderRequest F) (os : List (OrderRequest F))
      → try_lock f redis r o ≡ (true, r')
      → All (IsHeld r) os
      → IsHeld r' o × (All (IsHeld r') os × Alone o os)
  IsHeld-lock r r' o [] e h = ground (
    arith,
    laws.set_nx_ex_lem r (lock_of o) (text (codes "1")) lock_timeout,
    laws.get-set_ex r (lock_of o) (lock_of o) (text (codes "1")) lock_timeout,
    str_eq_refl (lock_of o),
  )
  IsHeld-lock r r' o (p ∷ os) e h =
      let rest = IsHeld-lock r r' o os e h.1 in
      ground (
        arith,
        laws.set_nx_ex_lem r (lock_of o) (text (codes "1")) lock_timeout,
        laws.get-set_ex r (lock_of o) (lock_of p) (text (codes "1")) lock_timeout,
        str_eq_iff (lock_of o) (lock_of p),
      )
