-- ===== src/Engines/Typed.antt =====
-- What the caches of the engines hold, however the engines interleave.
use hydra_engine.Base.{
  ℕ, ◌≡◌, refl, sym, false, Option, none, some, [], ◌∷◌, arith, inl, inr, Bool-cases,
}
use mathlib.Core.Path.{subst}
use hydra_engine.Text.{Str, str_eq}
use hydra_engine.Float.{Float}
use hydra_engine.Json.{obj, Payload, dumped}
use hydra_engine.Redis.{Redis, RedisLaws}
use hydra_engine.Exec.{Result-cases}
use hydra_engine.Strategy.Indicators.{Indicators, close_of}
use hydra_engine.Strategy.Generator.{Signal}
use hydra_engine.Strategy.Detector.{detect}
use hydra_engine.EventKeys.{event_key}
use hydra_engine.Engines.Events.{
  Event, key_of, indicator_prefix, regime_prefix, signal_prefix, indicators_json, indicators_of,
}
use hydra_engine.Engines.Indicator.{store_indicators}
use hydra_engine.Engines.Regime.{regime_json, handle_raw}
use hydra_engine.Engines.Strategy.{signal_json}
use hydra_engine.Engines.Live.{SameCaches}

-- Nothing is cached, or a text that the engine dumped.
module _ {F : Type 0} (f : Float F) where
  pub data HoldsIndicators : Option (Payload F) → Type 0 where
    no_indicators : HoldsIndicators none
    indicators : (ind : Indicators F) → HoldsIndicators (some (dumped (obj (indicators_json ind))))

  pub data HoldsRegime : Option (Payload F) → Type 0 where
    no_regime : HoldsRegime none
    a_regime : (regime : Str) (now : ℕ) → HoldsRegime (some (dumped (regime_json regime now)))

  pub data HoldsSignal : Option (Payload F) → Type 0 where
    no_signal : HoldsSignal none
    a_signal : (s : Signal F) (size : F) → HoldsSignal (some (dumped (signal_json f s size)))

module _ {F R : Type 0} (f : Float F) (redis : Redis F R) where
  -- The server's caches hold what the engines write, for every event.
  pub record IsTyped (r : R) : Type 0 where
    pub indicators_at : (e : Event) → HoldsIndicators f (redis.get r (key_of indicator_prefix e))
    pub regime_at : (e : Event) → HoldsRegime f (redis.get r (key_of regime_prefix e))
    pub signal_at : (e : Event) → HoldsSignal f (redis.get r (key_of signal_prefix e))

module _ {F R : Type 0} (f : Float F) (redis : Redis F R) (laws : RedisLaws f redis) where
  -- What holds of a key after a write.
  get-set-elsewhere :
      (P : Option (Payload F) → Type 0) (r : R) (k j : Str) (v : Payload F)
      → str_eq k j ≡ false
      → P (redis.get r j)
      → P (redis.get (redis.set r k v) j)
  get-set-elsewhere P r k j v h p = subst P (sym (ground (arith, laws.get-set r k j v))) p

  get-set-either :
      (P : Option (Payload F) → Type 0) (r : R) (k j : Str) (v : Payload F)
      → P (some v)
      → P (redis.get r j)
      → P (redis.get (redis.set r k v) j)
  get-set-either P r k j v new old = elim (Bool-cases (str_eq k j)) [
    | inl same ↦ subst P (sym (ground (arith, laws.get-set r k j v))) new
    | inr other ↦ get-set-elsewhere P r k j v other old
  ]

  -- A write to one of the three caches that fits it.
  IsTyped-set_indicators :
      (r : R) (e : Event) (ind : Indicators F)
      → IsTyped f redis r
      → IsTyped f redis
          (redis.set r (key_of indicator_prefix e) (dumped (obj (indicators_json ind))))
  unfolding event_key str_eq
  IsTyped-set_indicators r e ind h =
      let v = dumped (obj (indicators_json ind)) in
      let k = key_of indicator_prefix e in
      record {
        indicators_at = λ d.
            get-set-either (HoldsIndicators f) r k (key_of indicator_prefix d) v (indicators ind)
              (h.indicators_at d);
        regime_at = λ d.
            get-set-elsewhere (HoldsRegime f) r k (key_of regime_prefix d) v refl (h.regime_at d);
        signal_at = λ d.
            get-set-elsewhere (HoldsSignal f) r k (key_of signal_prefix d) v refl (h.signal_at d);
      }

  IsTyped-set_regime :
      (r : R) (e : Event) (regime : Str) (now : ℕ)
      → IsTyped f redis r
      → IsTyped f redis (redis.set r (key_of regime_prefix e) (dumped (regime_json regime now)))
  unfolding event_key str_eq
  IsTyped-set_regime r e regime now h =
      let v = dumped (regime_json regime now) in
      let k = key_of regime_prefix e in
      record {
        indicators_at = λ d.
            get-set-elsewhere (HoldsIndicators f) r k (key_of indicator_prefix d) v refl
              (h.indicators_at d);
        regime_at = λ d.
            get-set-either (HoldsRegime f) r k (key_of regime_prefix d) v (a_regime regime now)
              (h.regime_at d);
        signal_at = λ d.
            get-set-elsewhere (HoldsSignal f) r k (key_of signal_prefix d) v refl (h.signal_at d);
      }

  pub IsTyped-set_signal :
      (r : R) (e : Event) (s : Signal F) (size : F)
      → IsTyped f redis r
      → IsTyped f redis (redis.set r (key_of signal_prefix e) (dumped (signal_json f s size)))
  unfolding event_key str_eq
  IsTyped-set_signal r e s size h =
      let v = dumped (signal_json f s size) in
      let k = key_of signal_prefix e in
      record {
        indicators_at = λ d.
            get-set-elsewhere (HoldsIndicators f) r k (key_of indicator_prefix d) v refl
              (h.indicators_at d);
        regime_at = λ d.
            get-set-elsewhere (HoldsRegime f) r k (key_of regime_prefix d) v refl (h.regime_at d);
        signal_at = λ d.
            get-set-either (HoldsSignal f) r k (key_of signal_prefix d) v (a_signal s size)
              (h.signal_at d);
      }

  pub IsTyped-same : (r r' : R) → SameCaches redis r r' → IsTyped f redis r → IsTyped f redis r'
  IsTyped-same r r' same h = record {
    indicators_at = λ e. subst (HoldsIndicators f) (sym (same e).0) (h.indicators_at e);
    regime_at = λ e. subst (HoldsRegime f) (sym (same e).1) (h.regime_at e);
    signal_at = λ e. subst (HoldsSignal f) (sym (same e).2) (h.signal_at e);
  }

  pub IsTyped-store_indicators :
      (r : R) (e : Event) (ind : Indicators F)
      → IsTyped f redis r
      → IsTyped f redis (store_indicators f redis (λ cs. ind) e ind r)
  IsTyped-store_indicators r e [] h = h
  IsTyped-store_indicators r e (v ∷ vs) h = IsTyped-set_indicators r e (v ∷ vs) h

  pub IsTyped-handle_raw :
      (now : ℕ) (e : Event) (raw : Option (Payload F)) (r : R)
      → IsTyped f redis r
      → IsTyped f redis (handle_raw f redis now e raw r)
  IsTyped-handle_raw now e none r h = h
  IsTyped-handle_raw now e (some raw) r h = elim (Result-cases (indicators_of f raw)) [
    | inl (x, p) ↦ rw (p, handle_raw) h
    | inr (ind, p) ↦
        rw (p, handle_raw) (IsTyped-set_regime r e (detect f ind (close_of f ind)) now h)
  ]
