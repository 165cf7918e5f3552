-- ===== src/Core/OrderQueue/Expiry.antt =====
-- A lock that expires while its submission waits for the exchange.
use hydra_engine.Base.{◌≡◌, refl, true, false, none, List, ◌∷◌, arith}
use hydra_engine.Text.{codes, str_eq_refl}
use hydra_engine.Float.{Float, zero_float}
use hydra_engine.Json.{text, present}
use hydra_engine.Redis.{Redis, RedisLaws}
use hydra_engine.Exec.{ok}
use hydra_engine.Core.Types.{market_name, within_limits}
use hydra_engine.Core.Keys.{idem_key}
use hydra_engine.Core.RiskEngine.{check_order_allowed}
use hydra_engine.Core.Orders.{OrderRequest}
use hydra_engine.Core.OrderQueue.{OrderQueue, is_blocked, has_exchange, lock_timeout}
use hydra_engine.Core.OrderQueue.Interleaving.{
  Traffic, lock_of, first, other, Step, begin, failed, try_lock, unlock,
}

module _ {F R : Type 0} (f : Float F) (redis : Redis F R) (laws : RedisLaws f redis) where
  -- Suppose that the lock of a waiting submission `o` has expired, and that a second submission `p` for
  -- the same market, symbol and side passes the other guards. Then `p` begins although `o` still waits;
  -- and when the exchange refuses `o` after that, `o` deletes the lock of `p`, which still waits.
  pub expired_lock :
      (s : Traffic F R) (o p : OrderRequest F) (rest : List (OrderRequest F)) (q : OrderQueue F)
      → s.waiting ≡ o ∷ rest
      → lock_of p ≡ lock_of o
      → redis.get s.redis (lock_of o) ≡ none
      → present (redis.get s.redis (idem_key p.idempotency_key)) ≡ none
      → is_blocked redis q s.redis ≡ false
      → check_order_allowed f redis q.config
          (try_lock f redis s.redis p).1
          (market_name p.market)
          p.symbol
          (zero_float f)
        ≡ ok (true, within_limits)
      → has_exchange p.market q.exchanges ≡ true
      → Step f redis s (record { redis = (try_lock f redis s.redis p).1; waiting = p ∷ o ∷ rest })
        × Step f redis
            (record { redis = (try_lock f redis s.redis p).1; waiting = p ∷ o ∷ rest })
            (record { redis = unlock f redis (try_lock f redis s.redis p).1 o; waiting = p ∷ rest })
        × (redis.get (unlock f redis (try_lock f redis s.redis p).1 o) (lock_of p) ≡ none)
  expired_lock s o p rest q waits same gone fresh free allowed has = (
    begin q p (try_lock f redis s.redis p).1 fresh free
        (ground (arith, laws.set_nx_ex_lem s.redis (lock_of p) (text (codes "1")) lock_timeout))
        allowed has (ground arith),
    failed o (p ∷ rest) (other first) refl,
    ground (
      arith,
      laws.get-delete (try_lock f redis s.redis p).1 (lock_of o) (lock_of p),
      str_eq_refl (lock_of o),
    ),
  )
