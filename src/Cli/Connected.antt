-- ===== src/Cli/Connected.antt =====
-- The connectors that the factory makes after the wizard.
use hydra_engine.Base.{
  ◌≡◌, refl, sym, ap, ◌∙◌, Bool, true, Option, some, List, [], ◌∷◌, get_or, if◌then◌else◌, arith,
  Option-cases, inl, inr,
}
use mathlib.Core.Path.{subst}
use hydra_engine.Text.{Str, codes, str_eq, member}
use hydra_engine.Dict.{lookup}
use hydra_engine.Core.Types.{Market, kr, us, upbit, binance, hl, poly, market_name}
use hydra_engine.Config.Markets.{is_active, get_mode, paper}
use hydra_engine.Config.KeyManager.{Fernet, FernetLaw, KeyDir, load_or_create_fernet, store, load}
use hydra_engine.Exchange.Factory.{Connector, kis, spot, polymarket, create_one, create_exchanges}
use hydra_engine.Engines.Strategy.{markets}
use hydra_engine.Cli.Setup.{
  Choice, Disk, Answers, Hardware, finished, profiles, recommend_profile, store_keys, setup_market,
  setup_markets, run_setup, setup_rest,
}
use hydra_engine.Cli.Stored.{
  loaded, left_under, active_after, mode_after, keys_at-setup_markets, settings-setup_markets,
}
use hydra_engine.Cli.Making.{create_exchanges-makes}

-- The account that both connectors of KIS get: the one of the last of the two markets that is chosen.
abbrev pub account_of : (Market → Choice) → Str
account_of choice = if (choice us).chosen then (choice us).account_no else (choice kr).account_no

-- The connector that a chosen market should get.
abbrev pub connector_for : (Market → Choice) → Market → Connector
connector_for choice kr =
    kis (choice kr).first (choice kr).second (account_of choice) (str_eq (choice kr).mode paper)
connector_for choice us =
    kis (choice us).first (choice us).second (account_of choice) (str_eq (choice us).mode paper)
connector_for choice upbit = spot (codes "upbit")
connector_for choice binance = spot (codes "binance")
connector_for choice hl = spot (codes "hyperliquid")
connector_for choice poly = polymarket

module _ (choice : Market → Choice) where
  settings-chosen :
      (m : Market) (active : Bool) (mode : Str)
      → (choice m).chosen ≡ true
      → (active_after markets choice (market_name m) active ≡ true)
        × (mode_after markets choice (market_name m) mode ≡ (choice m).mode)
  unfolding str_eq
  settings-chosen kr active mode h = ground arith
  settings-chosen us active mode h = ground arith
  settings-chosen upbit active mode h = ground arith
  settings-chosen binance active mode h = ground arith
  settings-chosen hl active mode h = ground arith
  settings-chosen poly active mode h = ground arith

  create_one-chosen :
      (load old : Str → Option (Str × Str)) (m : Market)
      → ((n : Str) → load n ≡ left_under markets choice n (old n))
      → (choice m).chosen ≡ true
      → create_one load (market_name m) (str_eq (choice m).mode paper)
        ≡ some (connector_for choice m)
  unfolding create_one str_eq
  create_one-chosen load old kr h chosen =
      ground (arith, h (codes "kis_kr"), h (codes "kis_account"))
  create_one-chosen load old us h chosen =
      ground (arith, h (codes "kis_us"), h (codes "kis_account"))
  create_one-chosen load old upbit h chosen = refl
  create_one-chosen load old binance h chosen = refl
  create_one-chosen load old hl h chosen = refl
  create_one-chosen load old poly h chosen = refl

module _ {K B : Type 0} where
  -- A directory with a master key is opened with it.
  load_or_create_fernet_again :
      (other key : K) (d : KeyDir K B)
      → d.master_key ≡ some key
      → load_or_create_fernet other d ≡ (key, d)
  unfolding load_or_create_fernet
  load_or_create_fernet_again other key d h = rw h refl

  master_key-load_or_create_fernet :
      (fresh : K) (d : KeyDir K B)
      → (load_or_create_fernet fresh d).1.master_key ≡ some (load_or_create_fernet fresh d).0
  unfolding load_or_create_fernet
  master_key-load_or_create_fernet fresh d = elim (Option-cases d.master_key) [
    | inl missing ↦ rw missing refl
    | inr (key, found) ↦ ground arith
  ]

module _ {F K B : Type 0} (fernet : Fernet F K B) (law : FernetLaw fernet) (fresh : K)
    (seed : Str → B) (api_key : Str) where
  -- The keys that a manager of the running server loads from the directory.
  abbrev pub server_keys : K → Disk K B → Str → Option (Str × Str)
  server_keys other after n =
      let later = load_or_create_fernet other after.keys in loaded (load fernet later.0 n later.1)

  master_key-setup_market :
      (key : K) (m : Market) (c : Choice) (d : Disk K B)
      → (setup_market fernet key seed m c d).keys.master_key ≡ d.keys.master_key
  unfolding setup_market store_keys store
  master_key-setup_market key kr c d = ground arith
  master_key-setup_market key us c d = ground arith
  master_key-setup_market key upbit c d = ground arith
  master_key-setup_market key binance c d = ground arith
  master_key-setup_market key hl c d = ground arith
  master_key-setup_market key poly c d = ground arith

  master_key-setup_markets :
      (key : K) (ms : List Market) (choice : Market → Choice) (d : Disk K B)
      → (setup_markets fernet key seed ms choice d).keys.master_key ≡ d.keys.master_key
  unfolding setup_markets
  master_key-setup_markets key [] choice d = refl
  master_key-setup_markets key (m ∷ ms) choice d =
      master_key-setup_markets key ms choice (setup_market fernet key seed m (choice m) d)
      ∙ master_key-setup_market key m (choice m) d

  setup_rest-connects :
      (other : K) (profile : Str) (choice : Market → Choice) (d : Disk K B) (m : Market)
      → (choice m).chosen ≡ true
      → (let after = setup_rest fernet fresh seed api_key profile choice d in
          lookup (market_name m) (create_exchanges (server_keys other after) after.markets)
          ≡ some (connector_for choice m))
  unfolding load_or_create_fernet
  setup_rest-connects other profile choice d m chosen =
      let made = load_or_create_fernet fresh d.keys in
      let start = record d { keys = made.1 } in
      let after = setup_rest fernet fresh seed api_key profile choice d in
      let settings =
        settings-setup_markets fernet made.0 seed markets choice (market_name m) start in
      let ends =
        settings-chosen choice m (is_active start.markets (market_name m))
          (get_mode start.markets (market_name m)) chosen in
      let has_key =
        master_key-setup_markets made.0 markets choice start
        ∙ master_key-load_or_create_fernet fresh d.keys in
      let keys : (n : Str)
          → server_keys other after n
            ≡ left_under markets choice n (loaded (load fernet made.0 n made.1)) =
        (λ n.
          ap (λ later. loaded (load fernet later.0 n later.1))
            (load_or_create_fernet_again other made.0 after.keys has_key)
          ∙ keys_at-setup_markets fernet law made.0 seed markets choice n start) in
      create_exchanges-makes (server_keys other after) after.markets (market_name m)
        (connector_for choice m) (settings.0 ∙ ends.0)
        (subst
          (λ mode.
            create_one (server_keys other after) (market_name m) (str_eq mode paper)
            ≡ some (connector_for choice m))
          (sym (settings.1 ∙ ends.1))
          (create_one-chosen choice (server_keys other after)
            (λ n. loaded (load fernet made.0 n made.1)) m keys chosen))

  pub finished-run_setup :
      (hw : Hardware) (answers : Answers) (d after : Disk K B)
      → run_setup fernet fresh seed api_key hw answers d ≡ (finished, after)
      → (profile : Str) × (member profile profiles ≡ true)
        × (answers.accepted ≡ true)
        × (after ≡ setup_rest fernet fresh seed api_key profile answers.choice d)
  unfolding run_setup
  finished-run_setup hw answers d after h = elim (Option-cases (recommend_profile hw)) [
    | inl raised ↦ absurd (ground arith)
    | inr (recommended, p) ↦
        let profile = get_or answers.profile recommended in
        (profile, ground arith, ground arith, ground arith)
  ]

  -- After a wizard that finished, the factory makes a connector for every market that was chosen, whatever
  -- the disk held before and however the server's key manager would make a master key. A connector of KIS
  -- has the keys and the mode that were typed for its market, and the account number that was typed last;
  -- the others have no keys and no mode.
  pub wizard_connects :
      (other : K) (hw : Hardware) (answers : Answers) (d after : Disk K B) (m : Market)
      → run_setup fernet fresh seed api_key hw answers d ≡ (finished, after)
      → (answers.choice m).chosen ≡ true
      → lookup (market_name m) (create_exchanges (server_keys other after) after.markets)
        ≡ some (connector_for answers.choice m)
  unfolding run_setup
  wizard_connects other hw answers d after m h chosen =
      let (profile, known, agreed, e) = finished-run_setup hw answers d after h in
      rw e (setup_rest-connects other profile answers.choice d m chosen)
