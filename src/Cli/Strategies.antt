-- ===== src/Cli/Strategies.antt =====
-- hydra/cli/strategy.py
use hydra_engine.Base.{◌++◌}
use hydra_engine.Text.{Str, codes}
use hydra_engine.Cli.Output.{Output, says}

unfoldable pub list_strategies : Output
list_strategies = says (codes "전략 목록 - Phase 2에서 구현 예정")

unfoldable pub start : Str → Output
start name = says (codes "전략 시작: " ++ (name ++ codes " - Phase 2에서 구현 예정"))

unfoldable pub stop : Str → Output
stop name = says (codes "전략 중지: " ++ (name ++ codes " - Phase 2에서 구현 예정"))
