-- ===== src/Exchange/Polymarket.antt =====
-- hydra/exchange/polymarket.py: each call is one run of the `polymarket` program, which is a parameter.
use hydra_engine.Base.{Option, none, some, List, [], ◌∷◌, ◌++◌, if◌then◌else◌}
use hydra_engine.Text.{Str, codes}
use hydra_engine.Float.{Float, zero_float}
use hydra_engine.Json.{Json, Items}
use hydra_engine.Exec.{Action, pure, ◌>>=◌}
use hydra_engine.Core.Types.{Side, side_name}
use hydra_engine.Exchange.Crypto.{Word, word, number, Failure, quantity, items_of}

module _ {F : Type 0} (f : Float F) where
  -- `if price: args += ["--price", str(price)]`
  abbrev pub price_option : Option F → List (Word F)
  price_option none = []
  price_option (some p) =
      if f.eq p (zero_float f) then [] else word (codes "--price") ∷ number p ∷ []

  -- `str(qty)` of a quantity that is missing is the text None.
  unfoldable pub order_args : Str → Side → Option F → Option F → List (Word F)
  order_args symbol side qty price =
      word (codes "order")
      ∷ word (codes "create")
      ∷ word (codes "--market")
      ∷ word symbol
      ∷ word (codes "--side")
      ∷ word (side_name side)
      ∷ word (codes "--amount")
      ∷ quantity f qty
      ∷ price_option price

module _ {F X : Type 0} (f : Float F) (cli : List (Word F) → Action Failure X (Json F)) where
  -- `_run`
  unfoldable pub run : List (Word F) → Action Failure X (Json F)
  run args = cli (word (codes "polymarket") ∷ (args ++ word (codes "--json") ∷ []))

  unfoldable pub get_balance : Action Failure X (Json F)
  get_balance = run (word (codes "balance") ∷ [])

  -- The type of the order is not passed on.
  unfoldable pub create_order : Str → Side → Str → Option F → Option F → Action Failure X (Json F)
  create_order symbol side order_type qty price = run (order_args f symbol side qty price)

  unfoldable pub cancel_order : Str → Action Failure X (Json F)
  cancel_order order_id =
      run (word (codes "order") ∷ word (codes "cancel") ∷ word (codes "--id") ∷ word order_id ∷ [])

  unfoldable pub cancel_all : Action Failure X (Items F)
  unfolding run
  cancel_all = do
    result ← run (word (codes "order") ∷ word (codes "cancel-all") ∷ [])
    pure (items_of result)

  unfoldable pub get_positions : Action Failure X (Items F)
  unfolding run
  get_positions = do result ← run (word (codes "positions") ∷ []); pure (items_of result)
