-- ===== src/Examples/Signals.antt =====
-- Runs of the detector, the generator and the sizing.
use hydra_engine.Base.{◌≡◌, refl, true, some, ◌∷◌, ◌++◌}
use hydra_engine.Text.{codes}
use hydra_engine.Float.Fixed.{ℤ, pos, fixed, fixed-IsOrdered}
use hydra_engine.Strategy.Sizing.{
  RegimeProbabilities, default_sizing, compute_regime_adjusted_size, size_bounds,
}
use hydra_engine.EventKeys.{event_key, parse_key, colon, parse_key-event_key}

abbrev bear : RegimeProbabilities ℤ
bear = record { bull = pos 1000; neutral = pos 2000; bear = pos 7000 }

size_bounds_example :
    (fixed.le (pos 0) (compute_regime_adjusted_size fixed bear (default_sizing fixed (pos 1000000)))
      ≡ true)
    × (fixed.le
          (compute_regime_adjusted_size fixed bear (default_sizing fixed (pos 1000000)))
          (pos 10000)
        ≡ true)
size_bounds_example =
    size_bounds fixed fixed-IsOrdered bear (default_sizing fixed (pos 1000000)) refl

parse_key-event_key_example :
    parse_key (
      event_key
        (codes "hydra" ++ (colon ∷ codes "indicator"))
        (codes "binance")
        (codes "BTC/USDT:USDT")
        (codes "1h"))
    ≡ some (codes "binance", codes "BTC/USDT:USDT", codes "1h")
parse_key-event_key_example =
    parse_key-event_key (codes "hydra") (codes "indicator") (codes "binance")
      (codes "BTC/USDT:USDT") (codes "1h") (refl, (refl, (refl, (refl, (refl, tt)))))
      (refl, (refl, (refl, (refl, (refl, (refl, (refl, (refl, (refl, tt)))))))))
      (refl, (refl, (refl, (refl, (refl, (refl, (refl, tt))))))) (refl, (refl, tt))
