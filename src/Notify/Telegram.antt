-- ===== src/Notify/Telegram.antt =====
-- hydra/notify/telegram.py: the messages to the operator, and the command that is to stop the trading. The
-- libraries of Telegram and of HTTP are parameters.
use hydra_engine.Base.{
  ◌≡◌, refl, Bool, false, ◌||◌, Option, some, List, [], ◌∷◌, ◌++◌, if◌then◌else◌, arith, inl, inr,
  Option-cases,
}
use hydra_engine.Text.{Str, codes, str_eq, str_eq_complete}
use hydra_engine.Float.{Float}
use hydra_engine.Json.{Fields, field, end, str}
use hydra_engine.Redis.{Redis}
use hydra_engine.Exec.{Result, ok, err}
use hydra_engine.Core.Orders.{Venue}
use hydra_engine.Core.KillSwitch.{Notice}
use hydra_engine.Storage.Contract.{OhlcvStore}
use hydra_engine.Api.Types.{
  Route, health, create_order, get_positions, get_risk, killswitch, get_markets, enable_market,
  disable_market, status, modules, list_strategies, start_strategy, get_pnl, reset_daily_pnl,
  get_candles, get_symbols, get_indicators, list_indicators, get_regime, list_regimes, get_signal,
  list_signals, get_orderbook, get_events, get_sentiment, run_backtest, Response, App, Moment, Site,
}
use hydra_engine.Api.Paths.{path_of, Router, RouterLaw, serve_path}

pub record TelegramNotifier : Type 0 where
  pub token : Str
  pub chat_id : Str

-- `send_message`: an error of Telegram is logged and dropped.
unfoldable pub send_message :
    {T : Type 0} → (Str → Str → T → Result Str (Unit {0}) × T) → TelegramNotifier → Str → T → T
unfolding str_eq
send_message bot n text t =
    if str_eq n.token [] || str_eq n.chat_id [] then t else (bot n.chat_id text t).1

-- The replies that the operator sees, and the process behind the HTTP interface.
pub record Chat (P : Type 0) : Type 0 where
  pub replies : List Str
  pub process : P

-- The path of "http://hydra-core:8000/risk/kill".
abbrev pub kill_path : Str
kill_path = codes "/risk/kill"

-- The warning sign in front is two code points.
abbrev pub kill_started : Str
kill_started = 9888 ∷ 65039 ∷ codes " Kill Switch 발동 중..."

abbrev pub kill_done : Str
kill_done = codes "✅ 전 포지션 청산 완료"

module _ {F P A : Type 0} (post : Str → Str → Fields F → P → Result Str A × P) where
  -- The answer is not looked at, and an exception is logged and dropped.
  unfoldable pub kill_switch_callback : Str → Str → Str → P → P
  kill_switch_callback hydra_api_key reason source p =
      (post kill_path hydra_api_key
        (field (codes "reason") (str reason) (field (codes "source") (str source) end)) p).1

  -- The command /killswitch.
  unfoldable pub handle_killswitch : Str → Chat P → Chat P
  unfolding kill_switch_callback
  handle_killswitch hydra_api_key c = record {
    replies = (c.replies ++ kill_started ∷ []) ++ kill_done ∷ [];
    process =
        kill_switch_callback hydra_api_key (codes "telegram_command") (codes "telegram") c.process;
  }

no_kill_route : {F : Type 0} (r : Route F) → str_eq kill_path (path_of r) ≡ false
unfolding path_of str_eq
no_kill_route health = refl
no_kill_route (create_order o) = refl
no_kill_route get_positions = refl
no_kill_route get_risk = refl
no_kill_route (killswitch reason) = refl
no_kill_route get_markets = refl
no_kill_route (enable_market market) = refl
no_kill_route (disable_market market) = refl
no_kill_route status = refl
no_kill_route modules = refl
no_kill_route list_strategies = refl
no_kill_route (start_strategy name) = refl
no_kill_route get_pnl = refl
no_kill_route reset_daily_pnl = refl
no_kill_route (get_candles x limit since) = refl
no_kill_route get_symbols = refl
no_kill_route (get_indicators e) = refl
no_kill_route list_indicators = refl
no_kill_route (get_regime e) = refl
no_kill_route list_regimes = refl
no_kill_route (get_signal e) = refl
no_kill_route list_signals = refl
no_kill_route (get_orderbook market symbol) = refl
no_kill_route get_events = refl
no_kill_route (get_sentiment symbol) = refl
no_kill_route (run_backtest req) = refl

module _ {F R X T S : Type 0} (f : Float F) (redis : Redis F R) (venue : Venue F X)
    (send : Notice F → T → T) (store : OhlcvStore F S) (app : App F) (router : Router F) where
  -- The HTTP client: the process is reached or not.
  abbrev pub post_to :
      Bool → Moment F → Str → Str → Fields F → Site R X T S → Result Str (Response F) × Site R X T S
  post_to reached m path key body s =
      if reached
      then (let (r, s') = serve_path f redis venue send store app router m (some key) path body s in
          (ok r, s'))
      else (err (codes "connection failed"), s)

  serve_path_none :
      (law : RouterLaw router) (m : Moment F) (header : Option Str) (body : Fields F)
      (s : Site R X T S)
      → (serve_path f redis venue send store app router m header kill_path body s).1 ≡ s
  unfolding serve_path
  serve_path_none law m header body s = elim (Option-cases (router kill_path body)) [
    | inl missing ↦ ground arith
    | inr (r, found) ↦ absurd (
        ground (
          arith,
          str_eq_complete kill_path (path_of r) (law kill_path body r found),
          no_kill_route r,
        ))
  ]

  -- The command /killswitch of the bot tells the operator that all positions are closed, and changes
  -- nothing, whatever key it sends and whether or not the process is reached: no route has its path.
  pub handle_killswitch_lem :
      (law : RouterLaw router) (reached : Bool) (m : Moment F) (hydra_api_key : Str)
      (c : Chat (Site R X T S))
      → handle_killswitch (post_to reached m) hydra_api_key c ≡ record {
        replies = (c.replies ++ kill_started ∷ []) ++ kill_done ∷ [];
        process = c.process;
      }
  unfolding handle_killswitch kill_switch_callback
  handle_killswitch_lem law reached m hydra_api_key c = ground (
    arith,
    serve_path_none law m (some hydra_api_key)
        (field (codes "reason") (str (codes "telegram_command"))
          (field (codes "source") (str (codes "telegram")) end))
        c.process,
  )
