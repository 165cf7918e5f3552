-- ===== src/Core/PnlTracker/Recording.antt =====
-- What a recorded trade does to the four counters.
use hydra_engine.Base.{ℕ, suc, ◌≡◌, refl, false, some, arith}
use hydra_engine.Text.{Str, str_eq, str_eq_refl}
use hydra_engine.Float.{Float}
use hydra_engine.Redis.{Redis, RedisLaws, stored_float, stored_count}
use hydra_engine.Exec.{ok}
use hydra_engine.Core.PnlTracker.{
  realized_key, trade_count_key, daily_key, symbol_key, record_trade, get_realized_total,
  get_daily_realized, get_trade_count, get_symbol_realized,
}

module _ (day market symbol : Str) where
  key_facts :
      (str_eq realized_key (daily_key day) ≡ false)
      × (str_eq realized_key trade_count_key ≡ false)
      × (str_eq realized_key (symbol_key market symbol) ≡ false)
      × (str_eq (daily_key day) realized_key ≡ false)
      × (str_eq (daily_key day) trade_count_key ≡ false)
      × (str_eq (daily_key day) (symbol_key market symbol) ≡ false)
      × (str_eq trade_count_key realized_key ≡ false)
      × (str_eq trade_count_key (daily_key day) ≡ false)
      × (str_eq trade_count_key (symbol_key market symbol) ≡ false)
      × (str_eq (symbol_key market symbol) realized_key ≡ false)
      × (str_eq (symbol_key market symbol) (daily_key day) ≡ false)
      × (str_eq (symbol_key market symbol) trade_count_key ≡ false)
  unfolding realized_key daily_key trade_count_key symbol_key str_eq
  key_facts = (refl, refl, refl, refl, refl, refl, refl, refl, refl, refl, refl, refl)

module _ {F R : Type 0} (f : Float F) (redis : Redis F R) (laws : RedisLaws f redis) where
  -- Where the four counters hold numbers or are missing, a recorded trade adds its gain to the total, to
  -- the day and to the symbol, and one to the number of trades.
  pub record_trade-adds :
      (r : R) (day market symbol : Str) (pnl total daily per_symbol : F) (n : ℕ)
      → stored_float f (redis.get r realized_key) ≡ some total
      → stored_float f (redis.get r (daily_key day)) ≡ some daily
      → stored_count (redis.get r trade_count_key) ≡ some n
      → stored_float f (redis.get r (symbol_key market symbol)) ≡ some per_symbol
      → (get_realized_total f redis (record_trade f redis r day market symbol pnl)
          ≡ ok (f.add total pnl))
        × (get_daily_realized f redis (record_trade f redis r day market symbol pnl) day
            ≡ ok (f.add daily pnl))
        × (get_trade_count f redis (record_trade f redis r day market symbol pnl) ≡ ok (suc n))
        × (get_symbol_realized f redis (record_trade f redis r day market symbol pnl) market symbol
            ≡ ok (f.add per_symbol pnl))
  unfolding record_trade get_realized_total get_daily_realized get_trade_count get_symbol_realized
  record_trade-adds r day market symbol pnl total daily per_symbol n t d c s =
      let sk = symbol_key market symbol in
      let dk = daily_key day in
      let r1 = redis.incrbyfloat r realized_key pnl in
      let r2 = redis.incrbyfloat r1 dk pnl in
      let r3 = redis.incr r2 trade_count_key in
      let ne = key_facts day market symbol in
      let at1 = λ (j : Str). laws.get-incrbyfloat r realized_key j pnl total t in
      let d1 : stored_float f (redis.get r1 dk) ≡ some daily = ground (arith, at1 dk) in
      let at2 = λ (j : Str). laws.get-incrbyfloat r1 dk j pnl daily d1 in
      let c2 : stored_count (redis.get r2 trade_count_key) ≡ some n =
        ground (arith, at1 trade_count_key, at2 trade_count_key) in
      let at3 = λ (j : Str). laws.get-incr r2 trade_count_key j n c2 in
      let s3 : stored_float f (redis.get r3 sk) ≡ some per_symbol =
        ground (arith, at1 sk, at2 sk, at3 sk) in
      let at4 = λ (j : Str). laws.get-incrbyfloat r3 sk j pnl per_symbol s3 in
      (
        ground (
          arith,
          at1 realized_key,
          at2 realized_key,
          at3 realized_key,
          at4 realized_key,
          str_eq_refl realized_key,
        ),
        ground (arith, at2 dk, at3 dk, at4 dk, str_eq_refl dk),
        ground (arith, at3 trade_count_key, at4 trade_count_key, str_eq_refl trade_count_key),
        ground (arith, at4 sk, str_eq_refl sk),
      )
