-- ===== src/Watchdog.antt =====
-- scripts/dr_watchdog.py: a health check every minute that calls the kill switch after three failures
-- in a row.
pub mod Streaks
pub mod Calls
use hydra_engine.Base.{
  ℕ, ◌+◌, ◌≡◌, Bool, true, false, Option, none, some, List, [], ◌∷◌, leb, ◌==◌, if◌then◌else◌,
}

abbrev pub max_failures : ℕ
max_failures = 3

-- What the outside answers in one run: the status of the health check, `none` if it raised, and whether
-- the kill switch call and the alert come back or raise.
pub record Probe : Type 0 where
  pub health : Option ℕ
  pub kill_returns : Bool
  pub alert_returns : Bool

pub data Outcome : Type 0 where
  healthy : Outcome
  failure : ℕ → Outcome
  raised : Outcome

-- The count that the table holds afterwards, whether the kill switch was called, and what `lambda_handler`
-- returned.
pub record Report : Type 0 where
  pub stored : ℕ
  pub killed : Bool
  pub outcome : Outcome

-- `r.status_code == 200`, with an exception as `pass`
unfoldable pub is_healthy : Probe → Bool
is_healthy p = elim p.health [ none ↦ false | some status ↦ status == 200 ]

unfoldable pub lambda_handler : ℕ → Probe → Report
lambda_handler count p =
    if is_healthy p
    then record { stored = 0; killed = false; outcome = healthy }
    else (let failures = count + 1 in
        if leb max_failures failures
        then (if p.kill_returns
            then (if p.alert_returns
                then record { stored = 0; killed = true; outcome = failure failures }
                else record { stored = failures; killed = true; outcome = raised })
            else record { stored = failures; killed = true; outcome = raised })
        else record { stored = failures; killed = false; outcome = failure failures })

-- The table after a sequence of runs.
unfoldable pub after_probes : ℕ → List Probe → ℕ
after_probes count [] = count
after_probes count (p ∷ ps) = after_probes (lambda_handler count p).stored ps
