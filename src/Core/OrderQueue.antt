-- ===== src/Core/OrderQueue.antt =====
-- hydra/core/order_queue.py: the idempotency cache, the kill switch, the lock, the risk check and the
-- order, in the order of `submit`.
pub mod Placing
pub mod Guards
pub mod Retry
pub mod Interleaving
pub mod Exclusion
pub mod Expiry
use hydra_engine.Base.{
  ℕ, ◌≡◌, Bool, true, false, not, ◌&&◌, ◌||◌, Option, none, some, List, [], ◌∷◌, ltb, if◌then◌else◌,
  is_some, get_or,
}
use hydra_engine.Text.{Str, codes}
use hydra_engine.Float.{Float, zero_float}
use hydra_engine.Json.{
  Json, Fields, str, obj, field, end, member?, Payload, text, dumped, present, loads,
}
use hydra_engine.Redis.{Redis}
use hydra_engine.Exec.{
  Result, ok, err, and_then, Action, pure, raise, lift, gets, finally, ◌>>=◌, ◌>>◌,
}
use hydra_engine.Core.Types.{
  Market, kr, us, upbit, binance, hl, poly, Side, market_name, Reason, Error, order_lock,
  kill_switch_active, lock_not_acquired, risk_denied, market_disabled, decode_error, key_error,
  value_error, exchange_error,
}
use hydra_engine.Core.Keys.{idem_key, lock_key, kill_blocked_key}
use hydra_engine.Core.RiskEngine.{RiskConfig, check_order_allowed}
use hydra_engine.Core.PositionTracker.{decode}
use hydra_engine.Core.Orders.{OrderRequest, OrderArgs, optional_num, Venue}

pub record OrderResult (F : Type 0) : Type 0 where
  pub order_id : Json F
  pub status : Json F
  pub symbol : Str
  pub market : Market

-- The queue object: its flag, its connectors in the order of the dictionary, and the limits of its
-- risk engine.
pub record OrderQueue (F : Type 0) : Type 0 where
  pub blocked : Bool
  pub exchanges : List Market
  pub config : RiskConfig F

-- What a request can change besides the queue.
pub record World (R X : Type 0) : Type 0 where
  pub redis : R
  pub venue : X

abbrev pub lock_timeout : ℕ
lock_timeout = 10

abbrev pub idempotency_ttl : ℕ
idempotency_ttl = 86400

abbrev pub same_market : Market → Market → Bool
same_market kr kr = true
same_market us us = true
same_market upbit upbit = true
same_market binance binance = true
same_market hl hl = true
same_market poly poly = true
same_market _ _ = false

-- `self._exchanges.get(market)` finds a connector
unfoldable pub has_exchange : Market → List Market → Bool
has_exchange m [] = false
has_exchange m (n ∷ ns) = same_market m n || has_exchange m ns

unfoldable pub block_new_orders : {F : Type 0} → OrderQueue F → OrderQueue F
block_new_orders q = record q { blocked = true }

module _ {F : Type 0} where
  abbrev pub subscript : Str → Fields F → Result (Error F) (Json F)
  subscript k d = elim (member? k d) [ none ↦ err (key_error k) | some v ↦ ok v ]

  abbrev pub fields_of : Json F → Result (Error F) (Fields F)
  fields_of (obj d) = ok d
  fields_of _ = err decode_error

  -- The result that the cached text describes.
  unfoldable pub cached_result : OrderRequest F → Payload F → Result (Error F) (OrderResult F)
  unfolding member?
  cached_result o raw = and_then (decode raw) λ j. and_then (fields_of j) λ cached.
      and_then (subscript (codes "order_id") cached) λ i.
        and_then (subscript (codes "status") cached)
          λ s. ok (record { order_id = i; status = s; symbol = o.symbol; market = o.market })

  -- The text of the idempotency cache.
  unfoldable pub cache_json : OrderResult F → Json F
  cache_json r = obj (field (codes "order_id") r.order_id (field (codes "status") r.status end))

  -- The result of an answer of the exchange; `uuid` stands for an answer with no identifier.
  unfoldable pub result_of : Str → OrderRequest F → Fields F → OrderResult F
  result_of uuid o raw = record {
    order_id = get_or (member? (codes "order_id") raw) (str uuid);
    status = get_or (member? (codes "status") raw) (str (codes "submitted"));
    symbol = o.symbol;
    market = o.market;
  }

  unfoldable pub order_args : OrderRequest F → OrderArgs F
  order_args o = record {
    symbol = str o.symbol;
    side = o.side;
    order_type = o.order_type;
    qty = optional_num o.qty;
    price = optional_num o.price;
  }

-- An exception of a connector passes through.
abbrev pub raised : {F A : Type 0} → Result Str A → Result (Error F) A
raised (ok a) = ok a
raised (err e) = err (exchange_error e)

module _ {F R X A : Type 0} where
  -- A call of a connector: only the venue changes.
  unfoldable pub at_venue : Action Str X A → Action (Error F) (World R X) A
  at_venue m w = let (r, x) = m w.venue in (raised r, record w { venue = x })

-- `if not allowed: raise`
abbrev pub allow : {F W : Type 0} → Bool × Reason F → Action (Error F) W (Unit {0})
allow (true, reason) = pure tt
allow (false, reason) = raise (order_lock (risk_denied reason))

-- `self._blocked or self._redis.get(KILL_BLOCKED_KEY)`
unfoldable pub is_blocked : {F R : Type 0} → Redis F R → OrderQueue F → R → Bool
is_blocked redis q r = q.blocked || is_some (present (redis.get r kill_blocked_key))

module _ {F R X : Type 0} (f : Float F) (redis : Redis F R) (venue : Venue F X) where
  unfoldable pub check_risk :
      OrderQueue F → OrderRequest F → Action (Error F) (World R X) (Unit {0})
  check_risk q o = do
    verdict ← (λ w. (
      check_order_allowed f redis q.config w.redis (market_name o.market) o.symbol (zero_float f),
      w,
    ))
    allow verdict

  -- `if not ex: raise`
  unfoldable pub find_exchange :
      OrderQueue F → OrderRequest F → Action (Error F) (World R X) (Unit {0})
  find_exchange q o =
      if has_exchange o.market q.exchanges
      then pure tt
      else raise (order_lock (market_disabled o.market))

  unfoldable pub set_order_leverage : OrderRequest F → Action (Error F) (World R X) (Unit {0})
  unfolding at_venue
  set_order_leverage o =
      if o.is_futures && ltb 1 o.leverage
      then at_venue (venue.set_leverage o.market o.symbol o.leverage)
      else pure tt

  -- `self._redis.set(…)` of the idempotency cache
  unfoldable pub save_result :
      OrderRequest F → OrderResult F → Action (Error F) (World R X) (Unit {0})
  save_result o r w =
      let cached =
        redis.set_ex w.redis (idem_key o.idempotency_key) (dumped (cache_json r)) idempotency_ttl in
      (ok tt, record w { redis = cached })

  -- The body of the `try` statement.
  unfoldable pub place :
      Str → OrderQueue F → OrderRequest F → Action (Error F) (World R X) (OrderResult F)
  unfolding check_risk find_exchange set_order_leverage save_result at_venue
  place uuid q o = do
    check_risk q o
    find_exchange q o
    set_order_leverage o
    raw ← at_venue (venue.create_order o.market (order_args o))
    save_result o (result_of uuid o raw)
    pure (result_of uuid o raw)

  -- The `finally` clause.
  unfoldable pub release_lock : OrderRequest F → World R X → World R X
  release_lock o w = record w { redis = redis.delete w.redis (lock_key o.market o.symbol o.side) }

  -- From the lock on: `attempt` is the answer of `set(…, nx=True, ex=LOCK_TIMEOUT)`.
  unfoldable pub with_lock :
      Str
      → OrderQueue F
      → OrderRequest F
      → X
      → Bool × R
      → Result (Error F) (OrderResult F) × World R X
  unfolding release_lock
  with_lock uuid q o x (true, r) =
      finally (place uuid q o) (release_lock o) (record { redis = r; venue = x })
  with_lock uuid q o x (false, r) =
      (err (order_lock (lock_not_acquired o.symbol o.side)), record { redis = r; venue = x })

  -- A request whose key is not in the cache.
  unfoldable pub submit_new :
      Str → OrderQueue F → OrderRequest F → Action (Error F) (World R X) (OrderResult F)
  submit_new uuid q o w =
      if is_blocked redis q w.redis
      then (err (order_lock kill_switch_active), w)
      else with_lock uuid q o w.venue (
          redis.set_nx_ex w.redis (lock_key o.market o.symbol o.side) (text (codes "1"))
            lock_timeout)

  unfoldable pub submit :
      Str → OrderQueue F → OrderRequest F → Action (Error F) (World R X) (OrderResult F)
  submit uuid q o w = elim (present (redis.get w.redis (idem_key o.idempotency_key))) [
    | some raw ↦ (cached_result o raw, w)
    | none ↦ submit_new uuid q o w
  ]
