-- ===== src/Cli/Setup.antt =====
-- hydra/cli/setup_wizard.py: the wizard, over the answers of the operator. The terminal, psutil, the
-- benchmark script and the generator of random keys come from outside.
use hydra_engine.Base.{
  ℕ, Bool, true, false, Option, none, some, List, [], ◌∷◌, ◌++◌, get_or, leb, if◌then◌else◌,
}
use hydra_engine.Text.{Str, codes, member}
use hydra_engine.Core.Types.{Market, kr, us, upbit, binance, hl, poly, market_name}
use hydra_engine.Config.Markets.{MarketManager, enable}
use hydra_engine.Config.KeyManager.{Fernet, KeyDir, load_or_create_fernet, store}
use hydra_engine.Engines.Strategy.{markets}

-- `detect_hardware()`, without the disk, which only is printed; psutil gives no number of cores on some
-- machines.
pub record Hardware : Type 0 where
  pub cpu_cores : Option ℕ
  pub ram_gb : ℕ

-- `hw["ram_gb"] >= ram and hw["cpu_cores"] >= cores`; none is the TypeError of a comparison with None.
abbrev pub at_least : ℕ → ℕ → Hardware → Option Bool
at_least ram cores hw =
    if leb ram hw.ram_gb
    then elim hw.cpu_cores [ none ↦ none | some n ↦ some (leb cores n) ]
    else some false

-- `if` over a test that may raise
abbrev pub choose : {A : Type 0} → Option Bool → A → Option A → Option A
choose none a b = none
choose (some true) a b = some a
choose (some false) a b = b

unfoldable pub recommend_profile : Hardware → Option Str
recommend_profile hw =
    choose (at_least 32 16 hw) (codes "expert")
      (choose (at_least 16 8 hw) (codes "pro") (some (codes "lite")))

abbrev pub profiles : List Str
profiles = codes "lite" ∷ codes "pro" ∷ codes "expert" ∷ []

-- What the operator answers for one market: `first` and `second` are the two keys that it asks for.
pub record Choice : Type 0 where
  pub chosen : Bool
  pub mode : Str
  pub first : Str
  pub second : Str
  pub account_no : Str

-- The answers to the prompts, an empty one replaced by its default, and whether the disclaimer is accepted.
-- The answers on the AI mode and the interface are printed or dropped, and nothing reads them.
pub record Answers : Type 0 where
  pub profile : Option Str
  pub accepted : Bool
  pub choice : Market → Choice

-- What the wizard changes on disk: the settings of the markets, the keys, and the file ".env".
pub record Disk (K B : Type 0) : Type 0 where
  pub markets : MarketManager
  pub keys : KeyDir K B
  pub env : Option Str

-- How it ends: an exit with code 1, an exception, or with everything written.
pub data Ending : Type 0 where
  wrong_profile : Ending
  declined : Ending
  type_error : Ending
  finished : Ending

module _ {F K B : Type 0} (fernet : Fernet F K B) (key : K) (seed : Str → B) where
  abbrev pub store_key : Str → Str → Str → KeyDir K B → KeyDir K B
  store_key name first second = store fernet key (seed name) name first second

  -- The keys of one market. There are none for Polymarket.
  unfoldable pub store_keys : Market → Choice → KeyDir K B → KeyDir K B
  store_keys kr c d =
      store_key (codes "kis_account") c.account_no []
        (store_key (codes "kis_kr") c.first c.second d)
  store_keys us c d =
      store_key (codes "kis_account") c.account_no []
        (store_key (codes "kis_us") c.first c.second d)
  store_keys upbit c d = store_key (codes "upbit") c.first c.second d
  store_keys binance c d = store_key (codes "binance") c.first c.second d
  store_keys hl c d = store_key (codes "hl") c.first c.second d
  store_keys poly c d = d

  -- One turn of the loop over the markets. `enable` knows them all, so it does not raise.
  unfoldable pub setup_market : Market → Choice → Disk K B → Disk K B
  unfolding store_keys
  setup_market m c d =
      if c.chosen
      then record d {
        markets = get_or (enable d.markets (market_name m) c.mode) d.markets;
        keys = store_keys m c d.keys;
      }
      else d

  unfoldable pub setup_markets : List Market → (Market → Choice) → Disk K B → Disk K B
  unfolding setup_market
  setup_markets [] choice d = d
  setup_markets (m ∷ ms) choice d = setup_markets ms choice (setup_market m (choice m) d)

-- The text of ".env".
abbrev pub env_content : Str → Str → Str
env_content profile api_key =
    codes "HYDRA_PROFILE="
    ++ (profile
        ++ (10
            ∷ (codes "HYDRA_API_KEY="
                ++ (api_key ++ (10 ∷ (codes "REDIS_URL=redis://localhost:6379" ++ 10 ∷ []))))))

module _ {F K B : Type 0} (fernet : Fernet F K B) (fresh : K) (seed : Str → B) (api_key : Str) where
  -- From the choice of the markets on. `fresh` is the master key that is made if there is none.
  abbrev pub setup_rest : Str → (Market → Choice) → Disk K B → Disk K B
  setup_rest profile choice d =
      let made = load_or_create_fernet fresh d.keys in
      record (setup_markets fernet made.0 seed markets choice (record d { keys = made.1 })) {
        env = some (env_content profile api_key);
      }

  abbrev pub setup_with : Option Str → Answers → Disk K B → Ending × Disk K B
  setup_with none answers d = (type_error, d)
  setup_with (some recommended) answers d =
      let profile = get_or answers.profile recommended in
      if member profile profiles
      then if answers.accepted
        then (finished, setup_rest profile answers.choice d)
        else (declined, d)
      else (wrong_profile, d)

  unfoldable pub run_setup : Hardware → Answers → Disk K B → Ending × Disk K B
  unfolding recommend_profile setup_markets load_or_create_fernet
  run_setup hw answers d = setup_with (recommend_profile hw) answers d
