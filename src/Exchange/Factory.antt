-- ===== src/Exchange/Factory.antt =====
-- hydra/exchange/factory.py: the connectors of the markets that are enabled.
use hydra_engine.Base.{
  ℕ, ◌≡◌, refl, Bool, true, false, ◌⊎◌, inl, inr, Option, none, some, List, [], ◌∷◌, if◌then◌else◌,
  arith, Option-cases,
}
use hydra_engine.Text.{Str, codes, str_eq, str_eq_iff, member}
use hydra_engine.Dict.{Dict, lookup, insert, lookup-insert}
use hydra_engine.Float.{Float}
use hydra_engine.Json.{Json}
use hydra_engine.Exec.{ok, Action}
use hydra_engine.Config.Markets.{MarketManager, get_active_markets, get_mode, paper}
use hydra_engine.Exchange.Crypto.{Word, Failure, CryptoExchange, set_leverage}

pub data Connector : Type 0 where
  kis : Str → Str → Str → Bool → Connector
  crypto : CryptoExchange → Connector
  polymarket : Connector

-- `CryptoExchange(exchange_id)`
abbrev pub spot : Str → Connector
spot exchange_id = crypto (record { exchange_id = exchange_id; is_futures = false })

-- `load` is the key manager: the key and the secret that are stored under a name, and none if it raises.
module _ (load : Str → Option (Str × Str)) where
  abbrev pub kis_with : Option (Str × Str) → Option (Str × Str) → Bool → Option Connector
  kis_with (some (app_key, secret)) (some (account, unused)) is_paper =
      some (kis app_key secret account is_paper)
  kis_with _ _ is_paper = none

  -- The branches of the loop; none for an exception and for a market that no branch names.
  unfoldable pub create_one : Str → Bool → Option Connector
  unfolding str_eq
  create_one market is_paper =
      if str_eq market (codes "kr")
      then kis_with (load (codes "kis_kr")) (load (codes "kis_account")) is_paper
      else if str_eq market (codes "us")
      then kis_with (load (codes "kis_us")) (load (codes "kis_account")) is_paper
      else if str_eq market (codes "upbit")
      then some (spot (codes "upbit"))
      else if str_eq market (codes "binance")
      then some (spot (codes "binance"))
      else if str_eq market (codes "hl")
      then some (spot (codes "hyperliquid"))
      else if str_eq market (codes "poly")
      then some polymarket
      else none

  -- The loop over the markets that are left, with the connectors so far.
  unfoldable pub create_each : MarketManager → List Str → Dict Connector → Dict Connector
  create_each m [] made = made
  create_each m (market ∷ rest) made = elim (create_one market (str_eq (get_mode m market) paper)) [
    | none ↦ create_each m rest made
    | some c ↦ create_each m rest (insert market c made)
  ]

  unfoldable pub create_exchanges : MarketManager → Dict Connector
  unfolding create_each
  create_exchanges m = create_each m (get_active_markets m) []

  create_each-lookup :
      (m : MarketManager) (ks : List Str) (made : Dict Connector) (k : Str) (c : Connector)
      → lookup k (create_each m ks made) ≡ some c
      → ((member k ks ≡ true) × (create_one k (str_eq (get_mode m k) paper) ≡ some c))
        ⊎ (lookup k made ≡ some c)
  unfolding create_each
  create_each-lookup m [] made k c h = inr h
  create_each-lookup m (j ∷ ks) made k c h =
      elim (Option-cases (create_one j (str_eq (get_mode m j) paper))) [
        | inl none' ↦ ground (arith, create_each-lookup m ks made k c)
        | inr (d, e) ↦ ground (
          arith,
          create_each-lookup m ks (insert j d made) k c,
          lookup-insert j k d made,
          str_eq_iff j k,
          str_eq_iff k j,
        )
      ]

  -- Every connector that the factory makes is that of a market that is enabled, made with the paper flag
  -- of that market's mode.
  pub create_exchanges-active :
      (m : MarketManager) (k : Str) (c : Connector)
      → lookup k (create_exchanges m) ≡ some c
      → (member k (get_active_markets m) ≡ true)
        × (create_one k (str_eq (get_mode m k) paper) ≡ some c)
  unfolding create_exchanges lookup
  create_exchanges-active m k c h =
      ground (arith, create_each-lookup m (get_active_markets m) [] k c)

  crypto-create_one :
      (k : Str) (is_paper : Bool) (c : CryptoExchange)
      → create_one k is_paper ≡ some (crypto c)
      → c.is_futures ≡ false
  unfolding create_one
  crypto-create_one k is_paper c h = ground arith

  -- A crypto connector that the factory makes does nothing when it is told the leverage of an order,
  -- whatever the leverage.
  pub created_ignore_leverage :
      {F X : Type 0} (f : Float F) (cli : List (Word F) → Action Failure X (Json F))
      (m : MarketManager) (k symbol : Str) (c : CryptoExchange) (leverage : ℕ) (x : X)
      → lookup k (create_exchanges m) ≡ some (crypto c)
      → set_leverage f cli c symbol leverage x ≡ (ok tt, x)
  unfolding set_leverage
  created_ignore_leverage f cli m k symbol c leverage x h =
      let made = create_exchanges-active m k (crypto c) h in
      rw (crypto-create_one k (str_eq (get_mode m k) paper) c made.1) refl
