-- ===== src/Backtest/Broker.antt =====
-- hydra/backtest/broker.py, and the trade record of hydra/backtest/result.py. Python raises on a float
-- division by zero.
pub mod Timeline
use hydra_engine.Base.{
  ℕ, ◌≡◌, Bool, true, false, Option, none, some, List, [], ◌∷◌, ◌++◌, if◌then◌else◌,
}
use hydra_engine.Text.{Str, codes}
use hydra_engine.Float.{Float, zero_float}
use hydra_engine.Exec.{Result, ok, err, and_then}
use hydra_engine.Candle.{Candle}
use hydra_engine.Strategy.Generator.{Signal, Advice, buy_signal, sell_signal, hold_signal}

pub data BacktestError : Type 0 where
  zero_division value_error overflow : BacktestError

pub record Trade (F : Type 0) : Type 0 where
  pub market : Str
  pub symbol : Str
  pub entry_price : F
  pub exit_price : F
  pub qty : F
  pub pnl_usd : F
  pub pnl_pct : F
  pub entry_ts : ℕ
  pub exit_ts : ℕ
  pub entry_reason : Str
  pub exit_reason : Str

pub record OpenPosition (F : Type 0) : Type 0 where
  pub entry_price : F
  pub qty : F
  pub entry_ts : ℕ
  pub entry_reason : Str

pub record EquityPoint (F : Type 0) : Type 0 where
  pub ts : ℕ
  pub equity : F

pub record Broker (F : Type 0) : Type 0 where
  pub capital : F
  pub trade_amount : F
  pub commission : F
  pub position : Option (OpenPosition F)
  pub trades : List (Trade F)
  pub equity_curve : List (EquityPoint F)

abbrev pub new_broker : {F : Type 0} → F → F → F → Broker F
new_broker capital amount commission = record {
  capital = capital;
  trade_amount = amount;
  commission = commission;
  position = none;
  trades = [];
  equity_curve = [];
}

module _ {F : Type 0} (f : Float F) where
  -- `a / b`
  unfoldable pub divide : F → F → Result BacktestError F
  divide a b = if f.eq b (zero_float f) then err zero_division else ok (f.div a b)

  -- `self._equity_curve.append({"ts": ts, "equity": self.equity})`
  abbrev pub add_point : ℕ → Broker F → Broker F
  add_point ts b = record b {
    equity_curve = b.equity_curve ++ record { ts = ts; equity = b.capital } ∷ [];
  }

  -- The broker after a BUY that found no position.
  abbrev pub opened : Signal F → Candle F → F → Broker F → Broker F
  opened s c qty b = record b {
    capital = f.sub b.capital (f.mul b.trade_amount b.commission);
    position = some (record {
      entry_price = c.close;
      qty = qty;
      entry_ts = c.open_time;
      entry_reason = s.reason;
    });
  }

  unfoldable pub open_position : Signal F → Candle F → Broker F → Result BacktestError (Broker F)
  open_position s c b = and_then (divide b.trade_amount c.close) λ qty. ok (opened s c qty b)

  -- The gain on the quantity, less the fee of the exit.
  abbrev pub net_pnl : OpenPosition F → F → Broker F → F
  net_pnl pos price b =
      let gross_pnl = f.mul (f.sub price pos.entry_price) pos.qty in
      let commission = f.mul (f.mul price pos.qty) b.commission in f.sub gross_pnl commission

  abbrev pub closed_trade : OpenPosition F → F → ℕ → Str → F → F → Trade F
  closed_trade pos price ts reason net ratio = record {
    market = [];
    symbol = [];
    entry_price = pos.entry_price;
    exit_price = price;
    qty = pos.qty;
    pnl_usd = f.round 6 net;
    pnl_pct = f.round 4 (f.mul ratio (f.lit 100 0));
    entry_ts = pos.entry_ts;
    exit_ts = ts;
    entry_reason = pos.entry_reason;
    exit_reason = reason;
  }

  -- The broker after the position is closed, without the point of the equity curve.
  abbrev pub closed : F → Trade F → Broker F → Broker F
  closed net trade b = record b {
    capital = f.add b.capital net;
    position = none;
    trades = b.trades ++ trade ∷ [];
  }

  -- `close_open_position` where there is a position.
  unfoldable pub close_at :
      OpenPosition F → F → ℕ → Str → Broker F → Result BacktestError (Broker F)
  close_at pos price ts reason b =
      let net = net_pnl pos price b in
      and_then (divide (f.sub price pos.entry_price) pos.entry_price)
        λ ratio. ok (add_point ts (closed net (closed_trade pos price ts reason net ratio) b))

  abbrev pub close_option :
      Option (OpenPosition F) → F → ℕ → Str → Broker F → Result BacktestError (Broker F)
  close_option none price ts reason b = ok b
  close_option (some pos) price ts reason b = close_at pos price ts reason b

  unfoldable pub close_open_position : F → ℕ → Str → Broker F → Result BacktestError (Broker F)
  close_open_position price ts reason b = close_option b.position price ts reason b

  -- The two tests of `on_signal`, by the advice and the position.
  abbrev pub act :
      Advice
      → Option (OpenPosition F)
      → Signal F
      → Candle F
      → Broker F
      → Result BacktestError (Broker F)
  act buy_signal none s c b = open_position s c b
  act sell_signal (some pos) s c b = close_at pos c.close c.open_time s.reason b
  act _ _ s c b = ok b

  unfoldable pub on_signal : Signal F → Candle F → Broker F → Result BacktestError (Broker F)
  on_signal s c b = and_then (act s.signal b.position s c b) λ b'. ok (add_point c.open_time b')
