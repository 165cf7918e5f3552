-- ===== src/Examples/Services.antt =====
-- Runs of the watchdog, the shutdown and the rate limiter.
use hydra_engine.Base.{inr, ℕ, ◌≡◌, refl, true, false, none, some, List, [], ◌∷◌}
use hydra_engine.Text.{Str, codes}
use hydra_engine.Float.Fixed.{ℤ, pos, fixed, fixed-IsOrdered}
use hydra_engine.Json.{Json}
use hydra_engine.Redis.Memory.{Server, memory}
use hydra_engine.Watchdog.{Probe}
use hydra_engine.Resilience.Graceful.{Process, shutdown}
use hydra_engine.Resilience.RateLimiter.{
  Limiter, returned, out_of_fuel, refill, refilled, acquire, acquire_never, acquire_returns, served,
}
use hydra_engine.Config.Markets.{MarketManager}
use hydra_engine.Examples.Data.{queue, trading}

abbrev down : Probe
down = record { health = none; kill_returns = true; alert_returns = true }

abbrev process : Process ℤ
process = record { shutting_down = false; queue = queue }

abbrev repr : List (Json ℤ) → Str
repr ps = codes "snapshot"

abbrev server : Server ℤ
server = (shutdown (memory fixed) repr process trading.redis).2

-- One token per second, ten at most, three of them left.
abbrev bucket : Limiter ℤ
bucket = record { rate = pos 10000; capacity = pos 100000; tokens = pos 30000; last_refill = pos 0 }

abbrev seconds : ℕ → ℤ
seconds n = fixed.lit n 0

acquire_never_example : acquire fixed 1000 seconds (pos 110000) bucket ≡ out_of_fuel
acquire_never_example =
    acquire_never fixed fixed-IsOrdered 1000 seconds (pos 110000) bucket refl refl

enough : fixed.lt (refilled fixed seconds 2 bucket).tokens (pos 50000) ≡ false
unfolding refilled refill
enough = refl

acquire_returns_example :
    (taken : Limiter ℤ) × (m : ℕ) × (acquire fixed 3 seconds (pos 50000) bucket ≡ returned taken)
    × (fixed.lt (refilled fixed seconds m bucket).tokens (pos 50000) ≡ false)
    × (taken ≡ served fixed (pos 50000) (refilled fixed seconds m bucket))
acquire_returns_example = acquire_returns fixed seconds (pos 50000) bucket 2 enough (inr refl)

abbrev settings : MarketManager
settings = record {
  markets = some ((codes "us", record { enabled = some true; mode = some (codes "live") }) ∷ []);
  saved = none;
}
