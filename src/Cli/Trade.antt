-- ===== src/Cli/Trade.antt =====
-- hydra/cli/trade.py: the commands for orders by hand, which only print. `show` prints a float and
-- `decimal` an integer; typer reads the options and refuses a leverage outside 1 to 125.
use hydra_engine.Base.{ℕ, Bool, ◌&&◌, ◌++◌, ltb, if◌then◌else◌}
use hydra_engine.Text.{Str, codes}
use hydra_engine.Cli.Output.{Output, says}

abbrev pending : Str
pending = codes " - Phase 1에서 구현 예정"

-- `" ".join` of three texts
abbrev spaced : Str → Str → Str → Str
spaced a b c = a ++ (codes " " ++ (b ++ (codes " " ++ c)))

module _ {F : Type 0} (show : F → Str) (decimal : ℕ → Str) where
  unfoldable pub kr : Str → Str → F → Output
  kr symbol side qty =
      says (codes "[한국주식] " ++ (spaced side symbol (show qty) ++ (codes "주" ++ pending)))

  unfoldable pub us : Str → Str → F → Output
  us symbol side qty =
      says (codes "[미국주식] " ++ (spaced side symbol (show qty) ++ (codes "주" ++ pending)))

  -- What stands behind the quantity.
  abbrev pub crypto_kind : Bool → ℕ → Str
  crypto_kind futures leverage =
      if futures && ltb 1 leverage
      then codes " x " ++ (decimal leverage ++ codes " 레버리지 (선물)")
      else if futures
      then codes " (선물)"
      else codes " (현물)"

  unfoldable pub crypto : Str → Str → Str → F → ℕ → Bool → Output
  crypto exchange symbol side qty leverage futures = says (
      codes "["
      ++ (exchange
          ++ (codes "] "
              ++ (spaced side symbol (show qty) ++ (crypto_kind futures leverage ++ pending)))))

  unfoldable pub poly : Str → Str → F → Output
  poly market_id side amount =
      says (codes "[Polymarket] " ++ (spaced side market_id (codes "$" ++ show amount) ++ pending))
