-- ===== src/Strategy/Indicators.antt =====
-- The dictionary of indicator values that the calculator makes and the engines read; a value is a
-- number or None.
use hydra_engine.Base.{Option, none, get_or}
use hydra_engine.Text.{Str, codes}
use hydra_engine.Dict.{Dict, lookup}
use hydra_engine.Float.{Float, zero_float}

abbrev pub Indicators : Type 0 → Type 0
Indicators F = Dict (Option F)

-- `indicators.get(k)`: a missing key and a None give the same
unfoldable pub indicator : {F : Type 0} → Indicators F → Str → Option F
indicator ind k = get_or (lookup k ind) none

-- `float(indicators.get("close") or 0.0)`
unfoldable pub close_of : {F : Type 0} → Float F → Indicators F → F
close_of f ind = get_or (indicator ind (codes "close")) (zero_float f)
