-- ===== src/Core/KillSwitch/Accounting.antt =====
-- What the kill switch reports, against the calls of the connectors that it made.
use hydra_engine.Base.{◌≡◌, sym, true, List, [], ◌++◌, arith, length, inl, inr, ◌==◌}
use mathlib.Core.Path.{subst}
use hydra_engine.Text.{Str}
use hydra_engine.Json.{Json}
use hydra_engine.Redis.{Redis}
use hydra_engine.Exec.{ok, outcome_cases}
use hydra_engine.Core.Types.{Market}
use hydra_engine.Core.PositionTracker.{get_all}
use hydra_engine.Core.Orders.{Venue}
use hydra_engine.Core.OrderQueue.{World}
use hydra_engine.Core.KillSwitch.{
  Failure, KillSwitchResult, Notice, Progress, cancel_orders, close_positions, kill_result, execute,
  block_orders,
}
use hydra_engine.Core.KillSwitch.Trace.{Cancelled, Closed}
use hydra_engine.Core.KillSwitch.Closing.{cancel_orders-Cancelled, close_positions-Closed}

module _ {F R X T : Type 0} (redis : Redis F R) (venue : Venue F X) (send : Notice F → T → T) where
  module _ (ms : List Market) (reason source : Str) (duration_ms : F) (w : World R X) (t : T)
      (positions : List (Json F)) where
    -- Where the positions can be read, a kill switch that returns has asked each connector to cancel
    -- and then gone through the positions, and nothing else has called the venue. The symbols that it
    -- reports as closed are those whose closing order (at the market, for the other side and the whole
    -- quantity) the venue took; its errors are the cancellations that failed and then the closing orders
    -- that the venue refused or that could not be made; a position without a connector counts as neither.
    -- It reports success exactly if there is no error, and it notifies the operator once.
    pub kill_accounting :
        {result : KillSwitchResult F} {after : World R X} {t' : T}
        → get_all redis (block_orders redis w.redis) ≡ ok positions
        → execute redis venue send ms reason source duration_ms (w, t) ≡ (ok result, after, t')
        → (x : X) × (es es' : List (Failure F)) × Cancelled venue ms w.venue es x
          × Closed venue ms positions x result.closed_positions es' after.venue
          × (result.errors ≡ es ++ es')
          × (result.success ≡ (length (es ++ es') == 0))
          × (t'
              ≡ send
                  (record {
                    reason = reason;
                    source = source;
                    closed = length result.closed_positions;
                    duration_ms = duration_ms;
                  })
                  t)
    unfolding execute kill_result
    kill_accounting {result} {after} {t'} readable h =
        let (es, run, added) = cancel_orders-Cancelled venue ms [] w.venue in
        let start : Progress F = record {
          closed = [];
          errors = (cancel_orders venue ms [] w.venue).0;
        } in
        let x = (cancel_orders venue ms [] w.venue).1 in
        elim (outcome_cases (close_positions venue ms positions start x)) [
          | inl (e, q) ↦ absurd (ground arith)
          | inr (p, q) ↦
              let (cs, es', closings, added') =
                close_positions-Closed venue ms positions start x q in
              let reported : result.closed_positions ≡ cs = ground arith in
              let at_venue : (close_positions venue ms positions start x).1 ≡ after.venue =
                ground arith in
              let errors : result.errors ≡ es ++ es' = ground arith in
              (
                x,
                es,
                es',
                run,
                subst (λ c. Closed venue ms positions x c es' after.venue) (sym reported)
                    (subst (Closed venue ms positions x cs es') at_venue closings),
                errors,
                ground arith,
                ground arith,
              )
        ]

    -- If the positions can be read and the kill switch reports success, every connector took the request
    -- to cancel, and the venue took a closing order for every position that has a connector: the traces
    -- of both loops have no error. The report lists these positions, in their order.
    pub kill_success_closes_all :
        {result : KillSwitchResult F} {after : World R X} {t' : T}
        → get_all redis (block_orders redis w.redis) ≡ ok positions
        → execute redis venue send ms reason source duration_ms (w, t) ≡ (ok result, after, t')
        → result.success ≡ true
        → (x : X) × Cancelled venue ms w.venue [] x
          × Closed venue ms positions x result.closed_positions [] after.venue
    kill_success_closes_all {result} {after} readable h success =
        let (x, es, es', run, closings, errors, flag, told) = kill_accounting readable h in
        let none_failed : es ≡ [] = ground arith in
        let none_refused : es' ≡ [] = ground arith in
        (
          x,
          subst (λ es. Cancelled venue ms w.venue es x) none_failed run,
          subst (λ es. Closed venue ms positions x result.closed_positions es after.venue)
              none_refused closings,
        )
