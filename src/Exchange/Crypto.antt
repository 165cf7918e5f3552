-- ===== src/Exchange/Crypto.antt =====
-- hydra/exchange/crypto.py: each call is one run of the `ccxt` program. The program and the circuit
-- breaker around it are a parameter.
use hydra_engine.Base.{ℕ, Bool, ◌||◌, Option, none, some, List, [], ◌∷◌, ◌++◌, ltb, if◌then◌else◌}
use hydra_engine.Text.{Str, codes}
use hydra_engine.Float.{Float, zero_float}
use hydra_engine.Json.{Json, Items, arr, nil}
use hydra_engine.Exec.{Action, pure, raise, ◌>>=◌, ◌>>◌}
use hydra_engine.Core.Types.{Side, side_name}

-- A word of the command line: a text, or what `str` makes of a number or of None.
pub data Word (F : Type 0) : Type 0 where
  word : Str → Word F
  number : F → Word F
  whole : ℕ → Word F
  nothing : Word F

pub data Failure : Type 0 where
  cli_failed : Str → Failure
  bad_leverage : ℕ → Failure

pub record CryptoExchange : Type 0 where
  pub exchange_id : Str
  pub is_futures : Bool

module _ {F : Type 0} (f : Float F) where
  abbrev pub quantity : Option F → Word F
  quantity none = nothing
  quantity (some q) = number q

  -- `if price: args.append(str(price))`
  abbrev pub price_words : Option F → List (Word F)
  price_words none = []
  price_words (some p) = if f.eq p (zero_float f) then [] else number p ∷ []

  unfoldable pub order_words : Str → Side → Str → Option F → Option F → List (Word F)
  order_words symbol side order_type qty price =
      word (codes "createOrder")
      ∷ word symbol
      ∷ word order_type
      ∷ word (side_name side)
      ∷ quantity qty
      ∷ price_words price

-- `result if isinstance(result, list) else []`
abbrev pub items_of : {F : Type 0} → Json F → Items F
items_of (arr items) = items
items_of _ = nil

module _ {F X : Type 0} (f : Float F) (cli : List (Word F) → Action Failure X (Json F)) where
  -- `_run`
  unfoldable pub run : CryptoExchange → List (Word F) → Action Failure X (Json F)
  run c args = cli (word (codes "ccxt") ∷ word c.exchange_id ∷ (args ++ word (codes "--json") ∷ []))

  unfoldable pub get_balance : CryptoExchange → Action Failure X (Json F)
  get_balance c = run c (word (codes "fetchBalance") ∷ [])

  unfoldable pub create_order :
      CryptoExchange → Str → Side → Str → Option F → Option F → Action Failure X (Json F)
  create_order c symbol side order_type qty price =
      run c (order_words f symbol side order_type qty price)

  unfoldable pub cancel_order : CryptoExchange → Str → Action Failure X (Json F)
  cancel_order c order_id = run c (word (codes "cancelOrder") ∷ word order_id ∷ [])

  unfoldable pub cancel_all : CryptoExchange → Action Failure X (Items F)
  unfolding run
  cancel_all c = do result ← run c (word (codes "cancelAllOrders") ∷ []); pure (items_of result)

  unfoldable pub get_positions : CryptoExchange → Action Failure X (Items F)
  unfolding run
  get_positions c = do result ← run c (word (codes "fetchPositions") ∷ []); pure (items_of result)

  -- A spot connector does nothing.
  unfoldable pub set_leverage : CryptoExchange → Str → ℕ → Action Failure X (Unit {0})
  unfolding run
  set_leverage c symbol leverage =
      if c.is_futures
      then (if ltb leverage 1 || ltb 125 leverage
          then raise (bad_leverage leverage)
          else do run c (word (codes "setLeverage") ∷ whole leverage ∷ word symbol ∷ []); pure tt)
      else pure tt
