-- ===== src/Cli/Modules.antt =====
-- hydra/cli/module.py
use hydra_engine.Base.{List, [], ◌∷◌, ◌++◌, if◌then◌else◌}
use hydra_engine.Text.{Str, codes, str_eq, member}
use hydra_engine.Cli.Output.{Output, says, fails, joined}

abbrev pub ai_modules : List Str
ai_modules =
    codes "regime_detection"
    ∷ codes "signal_scoring"
    ∷ codes "feature_selection"
    ∷ codes "adaptive_retrain"
    ∷ codes "crash_detection"
    ∷ codes "dynamic_sizing"
    ∷ codes "sentiment"
    ∷ []

-- What Python prints for a list of texts without quotes in them.
abbrev pub quoted : List Str → List Str
quoted [] = []
quoted (s ∷ ss) = (codes "'" ++ (s ++ codes "'")) ∷ quoted ss

abbrev pub repr_list : List Str → Str
repr_list ss = codes "[" ++ (joined (codes ", ") (quoted ss) ++ codes "]")

abbrev unknown_text : Str → Str
unknown_text name =
    codes "[오류] 알 수 없는 모듈: " ++ (name ++ (codes ". 사용 가능: " ++ repr_list ai_modules))

unfoldable pub enable_module : Str → Output
unfolding str_eq
enable_module name =
    if member name ai_modules
    then says (codes "모듈 활성화: " ++ (name ++ codes " - Phase 1에서 구현 예정"))
    else fails (unknown_text name ∷ [])

unfoldable pub disable_module : Str → Output
disable_module name = says (codes "모듈 비활성화: " ++ (name ++ codes " - Phase 1에서 구현 예정"))

abbrev pub bullets : List Str → List Str
bullets [] = []
bullets (s ∷ ss) = (codes "  - " ++ s) ∷ bullets ss

unfoldable pub list_modules : Output
list_modules = says (codes "AI 모듈 목록:" ++ (10 ∷ joined (10 ∷ []) (bullets ai_modules)))
