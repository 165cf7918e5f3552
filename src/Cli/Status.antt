-- ===== src/Cli/Status.antt =====
-- hydra/cli/status.py: four requests to the process, and what is printed of their answers.
use hydra_engine.Base.{ℕ, Bool, false, Option, none, some, List, [], ◌∷◌, ◌++◌, ltb, if◌then◌else◌}
use hydra_engine.Text.{Str, codes}
use hydra_engine.Float.{Float, zero_float}
use hydra_engine.Json.{Json, bool, int, num, str, obj, end, member?}
use hydra_engine.Redis.{Redis}
use hydra_engine.Core.Orders.{Venue}
use hydra_engine.Core.KillSwitch.{Notice}
use hydra_engine.Core.PnlTracker.Summary.{Entry, Summary}
use hydra_engine.Storage.Contract.{OhlcvStore}
use hydra_engine.Api.Types.{
  value, health_answer, risk_answer, summary_answer, Response, reply, App, Moment, Site,
}
use hydra_engine.Api.Paths.{Router, serve_path}
use hydra_engine.Cli.Output.{Output, says, fails}

-- How Python prints what stands in the braces: a value, an integer, and a float with thousands
-- separators and some decimals.
pub record Format (F : Type 0) : Type 0 where
  pub shown : Json F → Str
  pub decimal : ℕ → Str
  pub grouped : ℕ → F → Str
  pub fixed : ℕ → F → Str
  pub upper : Str → Str

-- `response.json()[…]` of the answers; none is a KeyError or a TypeError.
module _ {F : Type 0} where
  abbrev text_or_none : Option (Json F) → Option Str
  text_or_none (some (str s)) = some s
  text_or_none _ = none

  abbrev pub profile_of : Response F → Option Str
  profile_of (reply n (value (obj d))) = text_or_none (member? (codes "profile") d)
  profile_of _ = none

  abbrev pub uptime_of : Response F → Option ℕ
  uptime_of (reply n (health_answer text uptime collectors)) = some uptime
  uptime_of _ = none

  abbrev pub risk_of : Response F → Option (F × Bool)
  risk_of (reply n (risk_answer pnl active)) = some (pnl, active)
  risk_of _ = none

  abbrev pub pnl_summary_of : Response F → Option (Summary F)
  pnl_summary_of (reply n (summary_answer x)) = some x
  pnl_summary_of _ = none

abbrev newline : Str
newline = 10 ∷ []

abbrev pub switch_text : Bool → Str
switch_text active = if active then codes "ACTIVE" else codes "NORMAL"

module _ {F : Type 0} (f : Float F) (format : Format F) where
  -- The `sign` in front of a number.
  abbrev pub sign : F → Str
  sign x = if f.le (zero_float f) x then codes "+" else []

  abbrev amount : F → Str
  amount x = sign x ++ format.grouped 4 x

  -- `pos["leverage"] > 1`; none is the TypeError of a value that is no number.
  abbrev pub levered : Json F → Option Bool
  levered (int n) = some (ltb 1 n)
  levered (num x) = some (f.lt (f.lit 1 0) x)
  levered (bool b) = some false
  levered _ = none

  abbrev pub leverage_text : Entry F → Bool → Str
  leverage_text e b = if b then codes " " ++ (format.shown e.leverage ++ codes "x") else []

  abbrev pub entry_text : Entry F → Option Bool → Option Str → Option Str
  entry_text e (some b) (some side) = some (
      codes "  ["
      ++ (format.shown e.market
          ++ (codes "] "
              ++ (format.shown e.symbol
                  ++ (codes " "
                      ++ (format.upper side
                          ++ (leverage_text e b
                              ++ (codes "   수량: "
                                  ++ (format.shown e.qty
                                      ++ (codes "  평균단가: "
                                          ++ (format.shown e.avg_price
                                              ++ (codes "  미실현: "
                                                  ++ amount e.unrealized_pnl))))))))))))
  entry_text e _ _ = none

  -- The lines of the positions: an exception ends the command after those that were printed.
  abbrev pub then_entries : Option Str → Output → Output
  then_entries none rest = fails []
  then_entries (some line) rest = record rest { lines = line ∷ rest.lines }

  unfoldable pub position_lines : List (Entry F) → Output
  position_lines [] = record { lines = []; code = 0 }
  position_lines (e ∷ es) =
      then_entries (entry_text e (levered e.leverage) (text_or_none (some e.side)))
        (position_lines es)

  abbrev pub after_line : Str → Output → Output
  after_line line rest = record rest { lines = line ∷ rest.lines }

  abbrev pub positions_output : List (Entry F) → Output
  positions_output [] = says (newline ++ codes "  오픈 포지션 없음")
  positions_output (e ∷ es) =
      after_line (newline ++ codes "  -- 오픈 포지션 --") (position_lines (e ∷ es))

  abbrev summary_text : Summary F → Str
  summary_text x =
      newline
      ++ (codes "=== 손익 현황 ==="
          ++ (newline
              ++ (codes "  실현 손익 (누적): "
                  ++ (amount x.realized_total
                      ++ (codes " USDT"
                          ++ (newline
                              ++ (codes "  실현 손익 (오늘): "
                                  ++ (amount x.daily_realized
                                      ++ (codes " USDT"
                                          ++ (newline
                                              ++ (codes "  미실현 손익:      "
                                                  ++ (amount x.unrealized
                                                      ++ (codes " USDT"
                                                          ++ (newline
                                                            ++ (codes "  총 손익:          "
                                                            ++ (amount x.total_pnl
                                                            ++ (codes " USDT"
                                                            ++ (newline
                                                            ++ (codes "  체결 거래 수:      "
                                                            ++ (format.decimal x.trade_count
                                                            ++ codes "건"))))))))))))))))))))

  abbrev pub pnl_output : Option (Summary F) → Output
  pnl_output none = fails []
  pnl_output (some x) = after_line (summary_text x) (positions_output x.positions)

  abbrev pub risk_output : Option (F × Bool) → Option (Summary F) → Output
  risk_output none pnl = fails []
  risk_output (some (loss, active)) pnl =
      after_line
        (codes "Kill Switch: "
          ++ (switch_text active
              ++ (codes " | 일일 손익(리스크): "
                  ++ (format.fixed 2 (f.mul loss (f.lit 100 0)) ++ codes "%"))))
        (pnl_output pnl)

  abbrev pub server_output : Option Str → Option ℕ → Option (F × Bool) → Option (Summary F) → Output
  server_output (some profile) (some uptime) risk pnl =
      after_line
        (codes "[정상] 서버 상태 정상 | 프로필: "
          ++ (profile ++ (codes " | 가동시간: " ++ (format.decimal uptime ++ codes "초"))))
        (risk_output risk pnl)
  server_output _ _ risk pnl = fails []

module _ {F R X T S : Type 0} (f : Float F) (redis : Redis F R) (venue : Venue F X)
    (send : Notice F → T → T) (store : OhlcvStore F S) (app : App F) (router : Router F)
    (format : Format F) where
  -- The answer to one request of a process that is reached.
  abbrev get_answer : Moment F → Option Str → Str → Site R X T S → Response F
  get_answer m header path s =
      (serve_path f redis venue send store app router m header path end s).0

  unfoldable pub status : Bool → Moment F → Str → Site R X T S → Output
  unfolding serve_path position_lines member?
  status reached m key s =
      if reached
      then server_output f format (profile_of (get_answer m (some key) (codes "/status") s))
          (uptime_of (get_answer m none (codes "/health") s))
          (risk_of (get_answer m (some key) (codes "/risk") s))
          (pnl_summary_of (get_answer m (some key) (codes "/pnl") s))
      else says (codes "[오류] 서버 오프라인")
