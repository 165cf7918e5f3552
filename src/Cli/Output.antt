-- ===== src/Cli/Output.antt =====
-- What the commands of hydra/cli leave on the terminal.
use hydra_engine.Base.{ℕ, List, [], ◌∷◌, ◌++◌}
use hydra_engine.Text.{Str}

-- The lines that a command prints, and its exit code. An exception that it lets through is printed by
-- typer, and ends it with code 1.
pub record Output : Type 0 where
  pub lines : List Str
  pub code : ℕ

abbrev pub says : Str → Output
says line = record { lines = line ∷ []; code = 0 }

abbrev pub fails : List Str → Output
fails lines = record { lines = lines; code = 1 }

-- `sep.join(xs)`
abbrev pub joined : Str → List Str → Str
joined sep [] = []
joined sep (s ∷ []) = s
joined sep (s ∷ (t ∷ ts)) = s ++ (sep ++ joined sep (t ∷ ts))
