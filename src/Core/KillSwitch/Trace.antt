-- ===== src/Core/KillSwitch/Trace.antt =====
-- What the kill switch of hydra/core/kill_switch.py asks of the connectors, as traces of the calls: the
-- cancellations, then the closing orders.
use hydra_engine.Base.{◌≡◌, ◌≢◌, ◌⊎◌, none, some, List, [], ◌∷◌, ◌++◌, All}
use hydra_engine.Text.{Str, codes}
use hydra_engine.Json.{Json, Fields, null, str, obj, member?}
use hydra_engine.Exec.{ok, err}
use hydra_engine.Core.Types.{Market, Side, buy, sell, market_name, Error, exchange_error}
use hydra_engine.Core.Orders.{Venue, OrderArgs, market_order}
use hydra_engine.Core.KillSwitch.{Failure, cancel_failed, close_failed}

-- The connectors have the market.
pub data IsListed (m : Market) : List Market → Type 0 where
  here : {ms : List Market} → IsListed m (m ∷ ms)
  later : {n : Market} {ms : List Market} → IsListed m ms → IsListed m (n ∷ ms)

-- The side that closes a position of a side.
pub data Closes {F : Type 0} : Json F → Side → Type 0 where
  long_sold : Closes (str (codes "buy")) sell
  other_bought : {side : Json F} → side ≢ str (codes "buy") → Closes side buy

-- The closing order of a position: at the market, for its symbol and its quantity.
pub record IsClosing {F : Type 0} (d : Fields F) (args : OrderArgs F) : Type 0 where
  pub at_market : args.order_type ≡ market_order
  pub no_price : args.price ≡ null
  pub its_symbol : member? (codes "symbol") d ≡ some args.symbol
  pub its_qty : member? (codes "qty") d ≡ some args.qty
  pub other_side : (side : Json F) × (member? (codes "side") d ≡ some side) × Closes side args.side

module _ {F X : Type 0} (venue : Venue F X) where
  -- The connectors are asked to cancel, one after the other; the list is what failed.
  pub data Cancelled : List Market → X → List (Failure F) → X → Type 0 where
    all_asked : {x : X} → Cancelled [] x [] x
    cancelled :
        {m : Market} {ms : List Market} {x x' x'' : X} {es : List (Failure F)} {done : Unit {0}}
        → venue.cancel_all m x ≡ (ok done, x')
        → Cancelled ms x' es x''
        → Cancelled (m ∷ ms) x es x''
    failed :
        {m : Market} {ms : List Market} {x x' x'' : X} {es : List (Failure F)} {e : Str}
        → venue.cancel_all m x ≡ (err e, x')
        → Cancelled ms x' es x''
        → Cancelled (m ∷ ms) x (cancel_failed m e ∷ es) x''

module _ {F X : Type 0} (venue : Venue F X) (ms : List Market) where
  -- One position: what is counted as closed, and as an error.
  pub data Outcome : Json F → X → List (Json F) → List (Failure F) → X → Type 0 where
    -- No connector has the position's market, and nothing is sent.
    unconnected :
        {d : Fields F} {market : Json F} {x : X}
        → member? (codes "market") d ≡ some market
        → All (λ m. market ≢ str (market_name m)) ms
        → Outcome (obj d) x [] [] x
    -- The venue took the closing order, and the symbol counts as closed.
    closed :
        {d : Fields F} {x x' : X} {raw : Fields F} (m : Market) (args : OrderArgs F)
        → IsListed m ms
        → member? (codes "market") d ≡ some (str (market_name m))
        → IsClosing d args
        → venue.create_order m args x ≡ (ok raw, x')
        → Outcome (obj d) x (args.symbol ∷ []) [] x'
    -- The venue refused the closing order.
    refused :
        {d : Fields F} {x x' : X} {e : Str} (m : Market) (args : OrderArgs F)
        → IsListed m ms
        → member? (codes "market") d ≡ some (str (market_name m))
        → IsClosing d args
        → venue.create_order m args x ≡ (err e, x')
        → Outcome (obj d) x [] (close_failed args.symbol (exchange_error e) ∷ []) x'
    -- The position has no side or no quantity, and nothing is sent.
    incomplete :
        {d : Fields F} {symbol : Json F} {x : X} {e : Error F} (m : Market)
        → IsListed m ms
        → member? (codes "market") d ≡ some (str (market_name m))
        → member? (codes "symbol") d ≡ some symbol
        → (member? (codes "side") d ≡ none) ⊎ (member? (codes "qty") d ≡ none)
        → Outcome (obj d) x [] (close_failed symbol e ∷ []) x

  -- The positions, one after the other.
  pub data Closed : List (Json F) → X → List (Json F) → List (Failure F) → X → Type 0 where
    all_closed : {x : X} → Closed [] x [] [] x
    next :
        {pos : Json F} {rest : List (Json F)} {x x' x'' : X} {cs cs' : List (Json F)}
        {es es' : List (Failure F)}
        → Outcome pos x cs es x'
        → Closed rest x' cs' es' x''
        → Closed (pos ∷ rest) x (cs ++ cs') (es ++ es') x''
