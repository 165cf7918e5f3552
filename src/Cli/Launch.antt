-- ===== src/Cli/Launch.antt =====
-- From the wizard to a running process.
use hydra_engine.Base.{
  is_some, ◌≡◌, sym, ap, ◌∙◌, true, Option, some, List, [], ◌∷◌, arith, Option-cases, Bool-cases,
  inl, inr,
}
use hydra_engine.Text.{Str}
use hydra_engine.Dict.{lookup}
use hydra_engine.Float.{Float}
use hydra_engine.Core.Types.{Market, kr, us, upbit, binance, hl, poly, market_name}
use hydra_engine.Core.OrderQueue.{has_exchange}
use hydra_engine.Config.Markets.{MarketManager, holding, open_file, enable, enable_lem}
use hydra_engine.Config.KeyManager.{Fernet, FernetLaw, load_or_create_fernet}
use hydra_engine.Exchange.Factory.{create_exchanges}
use hydra_engine.Storage.Create.{StoreChoice, create_store}
use hydra_engine.Engines.Strategy.{markets}
use hydra_engine.Api.Lifespan.{
  Machine, Returns, Started, start_up, AllReturn, start_up-started, started_with,
  has_exchange-connected,
}
use hydra_engine.Cli.Setup.{
  Choice, Disk, Answers, Hardware, finished, run_setup, setup_market, setup_markets,
}
use hydra_engine.Cli.Stored.{enable-known}
use hydra_engine.Cli.Connected.{connector_for, server_keys, wizard_connects, finished-run_setup}

module _ {F K B : Type 0} (fernet : Fernet F K B) (key : K) (seed : Str → B) where
  -- What is in memory is in the file.
  abbrev IsSaved : Disk K B → Type 0
  IsSaved d = d.markets.saved ≡ d.markets.markets

  IsSaved-chosen :
      (m : Market) (c : Choice) (d : Disk K B)
      → c.chosen ≡ true
      → IsSaved (setup_market fernet key seed m c d)
  unfolding setup_market
  IsSaved-chosen m c d h = elim (Option-cases (enable d.markets (market_name m) c.mode)) [
    | inl unknown ↦ absurd (enable-known d.markets m c.mode unknown)
    | inr (after, e) ↦
        ground (arith, enable_lem d.markets (market_name m) c.mode [] {after = after} e)
  ]

  IsSaved-setup_market :
      (m : Market) (c : Choice) (d : Disk K B)
      → IsSaved d
      → IsSaved (setup_market fernet key seed m c d)
  unfolding setup_market
  IsSaved-setup_market m c d h = elim (Bool-cases c.chosen) [
    | inl yes' ↦ IsSaved-chosen m c d yes'
    | inr no' ↦ ground arith
  ]

  IsSaved-setup_markets :
      (ms : List Market) (choice : Market → Choice) (d : Disk K B)
      → IsSaved d
      → IsSaved (setup_markets fernet key seed ms choice d)
  unfolding setup_markets
  IsSaved-setup_markets [] choice d h = h
  IsSaved-setup_markets (m ∷ ms) choice d h =
      IsSaved-setup_markets ms choice (setup_market fernet key seed m (choice m) d)
        (IsSaved-setup_market m (choice m) d h)

  -- The turn of a chosen market saves, and the turns after it keep what is saved.
  IsSaved-turn :
      (m : Market) (rest : List Market) (choice : Market → Choice) (d : Disk K B)
      → (choice m).chosen ≡ true
      → IsSaved (setup_markets fernet key seed (m ∷ rest) choice d)
  unfolding setup_markets
  IsSaved-turn m rest choice d h =
      IsSaved-setup_markets rest choice (setup_market fernet key seed m (choice m) d)
        (IsSaved-chosen m (choice m) d h)

  abbrev turn_of : (Market → Choice) → Disk K B → Market → Disk K B
  turn_of choice d m = setup_market fernet key seed m (choice m) d

  IsSaved-markets :
      (choice : Market → Choice) (d : Disk K B) (m : Market)
      → (choice m).chosen ≡ true
      → IsSaved (setup_markets fernet key seed markets choice d)
  unfolding setup_markets
  IsSaved-markets choice d kr h = IsSaved-turn kr (us ∷ upbit ∷ binance ∷ hl ∷ poly ∷ []) choice d h
  IsSaved-markets choice d us h =
      IsSaved-turn us (upbit ∷ binance ∷ hl ∷ poly ∷ []) choice (turn_of choice d kr) h
  IsSaved-markets choice d upbit h =
      IsSaved-turn upbit (binance ∷ hl ∷ poly ∷ []) choice (turn_of choice (turn_of choice d kr) us)
        h
  IsSaved-markets choice d binance h =
      IsSaved-turn binance (hl ∷ poly ∷ []) choice
        (turn_of choice (turn_of choice (turn_of choice d kr) us) upbit) h
  IsSaved-markets choice d hl h =
      IsSaved-turn hl (poly ∷ []) choice
        (turn_of choice (turn_of choice (turn_of choice (turn_of choice d kr) us) upbit) binance) h
  IsSaved-markets choice d poly h =
      IsSaved-turn poly [] choice
        (turn_of choice
          (turn_of choice (turn_of choice (turn_of choice (turn_of choice d kr) us) upbit) binance)
          hl)
        h

open_file-saved : (m : MarketManager) → m.saved ≡ m.markets → open_file (holding m.saved) ≡ m
unfolding open_file
open_file-saved m h = ground arith

module _ {F K B : Type 0} (f : Float F) (fernet : Fernet F K B) (law : FernetLaw fernet)
    (fresh other : K) (seed : Str → B) (api_key db_url : Str) where
  -- The disk of the wizard, as the process finds it.
  abbrev pub host_of : Disk K B → Option StoreChoice → Machine K B
  host_of d store = record {
    market_file = holding d.markets.saved;
    keys = d.keys;
    open_store = store;
  }

  saved-run_setup :
      (hw : Hardware) (answers : Answers) (d after : Disk K B) (m : Market)
      → run_setup fernet fresh seed api_key hw answers d ≡ (finished, after)
      → (answers.choice m).chosen ≡ true
      → after.markets.saved ≡ after.markets.markets
  saved-run_setup hw answers d after m h chosen =
      let (profile, known, agreed, e) =
        finished-run_setup fernet law fresh seed api_key hw answers d after h in
      let made = load_or_create_fernet fresh d.keys in
      ap (λ x. x.markets.saved) e
      ∙ IsSaved-markets fernet made.0 seed answers.choice (record d { keys = made.1 }) m chosen
      ∙ sym (ap (λ x. x.markets.markets) e)

  -- The process that starts on the disk of the wizard.
  abbrev pub launched : Disk K B → Started F
  launched d = started_with f fernet other db_url (open_file (holding d.markets.saved)) d.keys

  -- After a wizard that finished, the start of the process succeeds, if the calls of the libraries return
  -- and the database URL names a store; and the process has, for every market that was chosen, its
  -- connector, which the order queue finds. A connector of KIS has the keys and the mode that were typed
  -- for its market, and the account number that was typed last; the others have no keys and no mode.
  pub launch_connects :
      (hw : Hardware) (answers : Answers) (d after : Disk K B) (m : Market) (calls : Returns)
      (store : Option StoreChoice)
      → run_setup fernet fresh seed api_key hw answers d ≡ (finished, after)
      → (answers.choice m).chosen ≡ true
      → AllReturn calls
      → is_some (create_store db_url) ≡ true
      → ((start_up f fernet other db_url calls (host_of after store)).0 ≡ some (launched after))
        × (lookup (market_name m) (launched after).exchanges
            ≡ some (connector_for answers.choice m))
        × (has_exchange m (launched after).queue.exchanges ≡ true)
  launch_connects hw answers d after m calls store h chosen up known =
      let at =
        ap
          (λ mm.
            lookup (market_name m)
              (create_exchanges (server_keys fernet law fresh seed api_key other after) mm))
          (open_file-saved after.markets (saved-run_setup hw answers d after m h chosen))
        ∙ wizard_connects fernet law fresh seed api_key other hw answers d after m h chosen in
      (
        start_up-started f fernet other db_url calls (host_of after store) up known,
        at,
        has_exchange-connected m (launched after).exchanges (connector_for answers.choice m) at,
      )
