-- ===== src/Core/KillSwitch.antt =====
-- hydra/core/kill_switch.py: block new orders, cancel what is open, close every position, tell the
-- operator.
pub mod Accounting
pub mod Blocking
pub mod Closing
pub mod Reading
pub mod Trace
use hydra_engine.Base.{
  ℕ, ◌≡◌, Bool, true, false, Option, none, some, List, [], ◌∷◌, ◌++◌, if◌then◌else◌, is_some,
  length, ◌==◌,
}
use hydra_engine.Text.{Str, codes, str_eq}
use hydra_engine.Float.{Float}
use hydra_engine.Json.{Json, Fields, null, str, obj, member?, text, present}
use hydra_engine.Redis.{Redis}
use hydra_engine.Exec.{Result, ok, err, and_then, continue, Action}
use hydra_engine.Core.Types.{Market, Side, buy, sell, market_name, Error, exchange_error}
use hydra_engine.Core.Keys.{kill_blocked_key, daily_pnl_key}
use hydra_engine.Core.RiskEngine.{float_or_zero}
use hydra_engine.Core.PositionTracker.{get_all}
use hydra_engine.Core.Orders.{OrderArgs, market_order, Venue}
use hydra_engine.Core.OrderQueue.{World, subscript, fields_of}

-- An entry of the list `errors`.
pub data Failure (F : Type 0) : Type 0 where
  cancel_failed : Market → Str → Failure F
  close_failed : Json F → Error F → Failure F

pub record KillSwitchResult (F : Type 0) : Type 0 where
  pub success : Bool
  pub source : Str
  pub reason : Str
  pub duration_ms : F
  pub closed_positions : List (Json F)
  pub errors : List (Failure F)

-- What the operator is told: the cause, the source, how many positions were closed, how long it took.
pub record Notice (F : Type 0) : Type 0 where
  pub reason : Str
  pub source : Str
  pub closed : ℕ
  pub duration_ms : F

module _ {F : Type 0} where
  -- `self._exchanges.get(market)` for a decoded market name
  unfoldable pub find_exchange : Json F → List Market → Option Market
  unfolding str_eq
  find_exchange (str s) [] = none
  find_exchange (str s) (m ∷ ms) =
      if str_eq s (market_name m) then some m else find_exchange (str s) ms
  find_exchange _ ms = none

  -- `"sell" if pos["side"] == "buy" else "buy"`
  unfoldable pub close_side : Json F → Side
  unfolding str_eq
  close_side (str s) = if str_eq s (codes "buy") then sell else buy
  close_side _ = buy

  -- The keyword arguments of the closing order; a missing field raises.
  unfoldable pub close_args : Fields F → Result (Error F) (OrderArgs F)
  close_args pos = and_then (subscript (codes "side") pos) λ side.
      and_then (subscript (codes "symbol") pos) λ symbol.
        and_then (subscript (codes "qty") pos) λ qty. ok (record {
          symbol = symbol;
          side = close_side side;
          order_type = market_order;
          qty = qty;
          price = null;
        })

-- The lists `closed` and `errors` while the loop runs.
pub record Progress (F : Type 0) : Type 0 where
  pub closed : List (Json F)
  pub errors : List (Failure F)

-- `errors.append(…)` for a `cancel_all` that raised
abbrev pub cancel_failures : {F : Type 0} → Market → Result Str (Unit {0}) → List (Failure F)
cancel_failures m (ok done) = []
cancel_failures m (err e) = cancel_failed m e ∷ []

module _ {F : Type 0} where
  -- The `except` clause; it reads the symbol again for its text.
  unfoldable pub close_error : Fields F → Error F → Progress F → Result (Error F) (Progress F)
  close_error pos e p =
      and_then (subscript (codes "symbol") pos)
        λ symbol. ok (record p { errors = p.errors ++ close_failed symbol e ∷ [] })

  abbrev pub order_outcome :
      Fields F → Json F → Progress F → Result Str (Fields F) → Result (Error F) (Progress F)
  order_outcome pos symbol p (ok raw) = ok (record p { closed = p.closed ++ symbol ∷ [] })
  order_outcome pos symbol p (err e) = close_error pos (exchange_error e) p

  -- The result that the last lines build.
  unfoldable pub kill_result : Str → Str → F → Progress F → KillSwitchResult F
  kill_result reason source duration_ms p = record {
    success = length p.errors == 0;
    source = source;
    reason = reason;
    duration_ms = duration_ms;
    closed_positions = p.closed;
    errors = p.errors;
  }

module _ {F X : Type 0} (venue : Venue F X) where
  -- `for name, ex in self._exchanges.items()`, with the errors so far
  unfoldable pub cancel_orders : List Market → List (Failure F) → X → List (Failure F) × X
  cancel_orders [] errors x = (errors, x)
  cancel_orders (m ∷ ms) errors x =
      let (r, x') = venue.cancel_all m x in cancel_orders ms (errors ++ cancel_failures m r) x'

  abbrev pub send_close :
      Market
      → Fields F
      → Progress F
      → Result (Error F) (OrderArgs F)
      → X
      → Result (Error F) (Progress F) × X
  send_close m pos p (ok args) x =
      let (r, x') = venue.create_order m args x in (order_outcome pos args.symbol p r, x')
  send_close m pos p (err e) x = (close_error pos e p, x)

  abbrev pub close_at :
      Option Market → Fields F → Progress F → X → Result (Error F) (Progress F) × X
  close_at none pos p x = (ok p, x)
  close_at (some m) pos p x = send_close m pos p (close_args pos) x

  abbrev pub close_fields :
      List Market → Progress F → Result (Error F) (Fields F) → X → Result (Error F) (Progress F) × X
  close_fields ms p (err e) x = (err e, x)
  close_fields ms p (ok pos) x = elim (subscript (codes "market") pos) [
    | err e ↦ (err e, x)
    | ok market ↦ close_at (find_exchange market ms) pos p x
  ]

  -- One round of `for pos in positions`.
  unfoldable pub close_position :
      List Market → Json F → Progress F → X → Result (Error F) (Progress F) × X
  close_position ms pos p x = close_fields ms p (fields_of pos) x

  unfoldable pub close_positions :
      List Market → List (Json F) → Progress F → X → Result (Error F) (Progress F) × X
  close_positions ms [] p x = (ok p, x)
  close_positions ms (pos ∷ rest) p x =
      let (r, x') = close_position ms pos p x in
      continue r (λ p' x''. close_positions ms rest p' x'') x'

-- The server after the first line: new orders are blocked.
unfoldable pub block_orders : {F R : Type 0} → Redis F R → R → R
block_orders redis r = redis.set r kill_blocked_key (text (codes "1"))

module _ {F R X T : Type 0} (redis : Redis F R) (venue : Venue F X) (send : Notice F → T → T) where
  -- `notify` is the Telegram client's state; an exception of `send_message` is swallowed, so the call
  -- is its effect on that state.
  abbrev pub finish :
      Str → Str → F → Result (Error F) (Progress F) → T → Result (Error F) (KillSwitchResult F) × T
  finish reason source duration_ms (err e) notify = (err e, notify)
  finish reason source duration_ms (ok p) notify =
      let notice : Notice F = record {
        reason = reason;
        source = source;
        closed = length p.closed;
        duration_ms = duration_ms;
      } in
      (ok (kill_result reason source duration_ms p), send notice notify)

  -- `duration_ms` is what the clock measured.
  unfoldable pub execute :
      List Market
      → Str
      → Str
      → F
      → World R X × T
      → Result (Error F) (KillSwitchResult F) × World R X × T
  execute exchanges reason source duration_ms (w, notify) =
      let r = block_orders redis w.redis in
      let (errors, x) = cancel_orders venue exchanges [] w.venue in
      elim (get_all redis r) [
        | err e ↦ (err e, record { redis = r; venue = x }, notify)
        | ok positions ↦
            let (p, x') =
              close_positions venue exchanges positions (record { closed = []; errors = errors })
                x in
            let (result, notify') = finish reason source duration_ms p notify in
            (result, record { redis = r; venue = x' }, notify')
      ]

-- `bool(self._redis.get(KILL_BLOCKED_KEY))`
unfoldable pub is_active : {F R : Type 0} → Redis F R → R → Bool
is_active redis r = is_some (present (redis.get r kill_blocked_key))

-- `daily_pnl <= KILL_THRESHOLD`, with the loss that the reason text prints
unfoldable pub trigger : {F : Type 0} → Float F → F → Bool × Option F
trigger f daily_pnl =
    if f.le daily_pnl (f.neg (f.lit 5 2)) then (true, some daily_pnl) else (false, none)

unfoldable pub check_auto_triggers :
    {F R : Type 0} → Float F → Redis F R → R → Result (Error F) (Bool × Option F)
check_auto_triggers f redis r =
    and_then (float_or_zero f redis r daily_pnl_key) λ daily_pnl. ok (trigger f daily_pnl)
