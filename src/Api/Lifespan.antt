-- ===== src/Api/Lifespan.antt =====
-- `lifespan` of hydra/main.py: what is made before the first request, and what is closed after the last.
use hydra_engine.Base.{
  ◌≡◌, refl, sym, Bool, true, false, Option, is_some, none, some, List, [], ◌∷◌, arith,
  if◌then◌else◌, Bool-cases, Option-cases, inl, inr,
}
use mathlib.Core.Path.{subst}
use hydra_engine.Text.{Str, str_eq, str_eq_sound}
use hydra_engine.Dict.{Dict, lookup}
use hydra_engine.Float.{Float}
use hydra_engine.Core.Types.{Market, kr, us, upbit, binance, hl, poly, market_name}
use hydra_engine.Core.RiskEngine.{default_risk_config}
use hydra_engine.Core.OrderQueue.{OrderQueue, has_exchange, same_market}
use hydra_engine.Config.Markets.{MarketManager, MarketFile, open_file}
use hydra_engine.Config.KeyManager.{Fernet, KeyDir, load_or_create_fernet, load}
use hydra_engine.Exchange.Factory.{Connector, create_exchanges}
use hydra_engine.Storage.Create.{StoreChoice, create_store}
use hydra_engine.Engines.Strategy.{find_market, markets}
use hydra_engine.Cli.Stored.{loaded}

-- The files of the process, and whether a store is open.
pub record Machine (K B : Type 0) : Type 0 where
  pub market_file : MarketFile
  pub keys : KeyDir K B
  pub open_store : Option StoreChoice

-- Which of the calls of libraries return: the URL of Redis can be parsed, the store can be initialised,
-- and the event loop takes signal handlers, which it does not on every system.
pub record Returns : Type 0 where
  pub redis_from_url : Bool
  pub store_init : Bool
  pub register_signals : Bool

abbrev pub AllReturn : Returns → Type 0
AllReturn calls =
    (calls.redis_from_url ≡ true) × (calls.store_init ≡ true) × (calls.register_signals ≡ true)

-- What the route modules are given: the connectors, the order queue over them and the settings of the
-- markets.
pub record Started (F : Type 0) : Type 0 where
  pub exchanges : Dict Connector
  pub queue : OrderQueue F
  pub markets : MarketManager

-- The markets of the connectors, in the order of the dictionary. The factory uses no other names.
abbrev pub and_market : Option Market → List Market → List Market
and_market none ms = ms
and_market (some m) ms = m ∷ ms

unfoldable pub connected : Dict Connector → List Market
unfolding find_market
connected [] = []
connected ((k, c) ∷ d) = and_market (find_market k markets) (connected d)

module _ {F K B : Type 0} (f : Float F) (fernet : Fernet F K B) (fresh : K) (db_url : Str) where
  abbrev pub started_with : MarketManager → KeyDir K B → Started F
  started_with m keys =
      let key = load_or_create_fernet fresh keys in
      let exchanges = create_exchanges (λ n. loaded (load fernet key.0 n key.1)) m in
      record {
        exchanges = exchanges;
        queue = record {
          blocked = false;
          exchanges = connected exchanges;
          config = default_risk_config f;
        };
        markets = m;
      }

  -- From the initialised store on.
  abbrev pub wire : Returns → Machine K B → Machine K B → Option (Started F) × Machine K B
  wire calls before host =
      if calls.register_signals
      then (some (started_with (open_file host.market_file) before.keys), host)
      else (none, host)

  abbrev pub init_store :
      Returns → Machine K B → Machine K B → Option StoreChoice → Option (Started F) × Machine K B
  init_store calls before host none = (none, host)
  init_store calls before host (some choice) =
      if calls.store_init
      then wire calls before (record host { open_store = some choice })
      else (none, host)

  -- The part before `yield`; none is the exception that is logged and raised again. A key manager that
  -- made a master key has written it by then.
  unfoldable pub start_up : Returns → Machine K B → Option (Started F) × Machine K B
  unfolding connected load_or_create_fernet create_store
  start_up calls host =
      if calls.redis_from_url
      then init_store calls host (record host { keys = (load_or_create_fernet fresh host.keys).1 })
          (create_store db_url)
      else (none, host)

  -- A start with a store succeeds.
  pub start_up-started :
      (calls : Returns) (host : Machine K B)
      → AllReturn calls
      → is_some (create_store db_url) ≡ true
      → (start_up calls host).0 ≡ some (started_with (open_file host.market_file) host.keys)
  unfolding start_up
  start_up-started calls host up known = elim (Option-cases (create_store db_url)) [
    | inl unknown ↦ absurd (ground arith)
    | inr (choice, e) ↦ ground (arith, up)
  ]

-- The part after `yield`.
unfoldable pub shut_down : {K B : Type 0} → Machine K B → Machine K B
shut_down host = record host { open_store = none }

find_market-name : (m : Market) → find_market (market_name m) markets ≡ some m
unfolding find_market str_eq
find_market-name kr = refl
find_market-name us = refl
find_market-name upbit = refl
find_market-name binance = refl
find_market-name hl = refl
find_market-name poly = refl

same_market_refl : (m : Market) → same_market m m ≡ true
same_market_refl kr = refl
same_market_refl us = refl
same_market_refl upbit = refl
same_market_refl binance = refl
same_market_refl hl = refl
same_market_refl poly = refl

has_exchange-and_market :
    (m : Market) (o : Option Market) (ms : List Market)
    → has_exchange m ms ≡ true
    → has_exchange m (and_market o ms) ≡ true
unfolding has_exchange
has_exchange-and_market m none ms h = h
has_exchange-and_market m (some n) ms h = ground (arith, h)

-- The order queue finds the connector of every market that has one.
pub has_exchange-connected :
    (m : Market) (d : Dict Connector) (c : Connector)
    → lookup (market_name m) d ≡ some c
    → has_exchange m (connected d) ≡ true
unfolding lookup connected has_exchange
has_exchange-connected m [] c h = absurd (ground arith)
has_exchange-connected m ((k, x) ∷ d) c h = elim (Bool-cases (str_eq k (market_name m))) [
  | inl same ↦
      subst (λ j. has_exchange m (and_market (find_market j markets) (connected d)) ≡ true)
        (sym (str_eq_sound k (market_name m) same))
        (ground (arith, find_market-name m, same_market_refl m))
  | inr other ↦
      has_exchange-and_market m (find_market k markets) (connected d)
        (has_exchange-connected m d c (ground arith))
]
