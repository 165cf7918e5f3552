-- ===== src/Cli/Stored.antt =====
-- What the loop of the wizard leaves in the key files and in the settings of the markets.
use hydra_engine.Base.{
  ◌≡◌, refl, ap, ◌∙◌, Bool, true, ◌&&◌, Option, none, some, List, [], ◌∷◌, if◌then◌else◌, arith,
  Option-cases, inl, inr,
}
use hydra_engine.Text.{Str, codes, str_eq, member}
use hydra_engine.Dict.{lookup-insert}
use hydra_engine.Json.{Json, str, dumped}
use hydra_engine.Exec.{Result, ok}
use hydra_engine.Core.Types.{Market, kr, us, upbit, binance, hl, poly, market_name}
use hydra_engine.Config.Markets.{
  MarketManager, enable, enable_lem, is_active, get_mode, valid_markets,
}
use hydra_engine.Config.KeyManager.{
  Fernet, FernetLaw, KeyDir, KeyError, keys_json, keys_of-keys_json, store, load,
}
use hydra_engine.Cli.Setup.{Choice, Disk, store_keys, setup_market, setup_markets}

module _ {F : Type 0} where
  -- The key and the secret that `load` returns; none if it raises.
  abbrev pub loaded : Result (KeyError F) (Json F × Json F) → Option (Str × Str)
  loaded (ok (str a, str b)) = some (a, b)
  loaded _ = none

-- What the turn of one market stores under a name.
abbrev pub written : Market → Choice → Str → Option (Str × Str)
written kr c n =
    if str_eq (codes "kis_account") n
    then some (c.account_no, [])
    else if str_eq (codes "kis_kr") n
    then some (c.first, c.second)
    else none
written us c n =
    if str_eq (codes "kis_account") n
    then some (c.account_no, [])
    else if str_eq (codes "kis_us") n
    then some (c.first, c.second)
    else none
written upbit c n = if str_eq (codes "upbit") n then some (c.first, c.second) else none
written binance c n = if str_eq (codes "binance") n then some (c.first, c.second) else none
written hl c n = if str_eq (codes "hl") n then some (c.first, c.second) else none
written poly c n = none

abbrev pub or_else : {A : Type 0} → Option A → Option A → Option A
or_else none b = b
or_else (some a) b = some a

-- What the turns of the loop leave under a name that held `old`.
abbrev pub left_under :
    List Market → (Market → Choice) → Str → Option (Str × Str) → Option (Str × Str)
left_under [] choice n old = old
left_under (m ∷ ms) choice n old =
    left_under ms choice n (if (choice m).chosen then or_else (written m (choice m) n) old else old)

-- The last of the markets named `k` that are chosen decides whether `k` is active and in which mode.
abbrev pub active_after : List Market → (Market → Choice) → Str → Bool → Bool
active_after [] choice k old = old
active_after (m ∷ ms) choice k old =
    active_after ms choice k (if (choice m).chosen && str_eq (market_name m) k then true else old)

abbrev pub mode_after : List Market → (Market → Choice) → Str → Str → Str
mode_after [] choice k old = old
mode_after (m ∷ ms) choice k old =
    mode_after ms choice k
      (if (choice m).chosen && str_eq (market_name m) k then (choice m).mode else old)

module _ {F K B : Type 0} (fernet : Fernet F K B) (law : FernetLaw fernet) (key : K)
    (seed : Str → B) where
  abbrev pub keys_at : Str → KeyDir K B → Option (Str × Str)
  keys_at n d = loaded (load fernet key n d)

  keys_at-store :
      (token : B) (n j a b : Str) (d : KeyDir K B)
      → keys_at j (store fernet key token n a b d)
        ≡ (if str_eq n j then some (a, b) else keys_at j d)
  unfolding store load
  keys_at-store token n j a b d = ground (
    arith,
    lookup-insert n j (fernet.encrypt key token (dumped (keys_json a b))) d.files,
    law key token (dumped (keys_json a b)),
    keys_of-keys_json {F = F} a b,
  )

  keys_at-store_keys :
      (m : Market) (c : Choice) (n : Str) (d : KeyDir K B)
      → keys_at n (store_keys fernet key seed m c d) ≡ or_else (written m c n) (keys_at n d)
  unfolding store_keys
  keys_at-store_keys kr c n d =
      let first = store fernet key (seed (codes "kis_kr")) (codes "kis_kr") c.first c.second d in
      ground (
        arith,
        keys_at-store (seed (codes "kis_account")) (codes "kis_account") n c.account_no [] first,
        keys_at-store (seed (codes "kis_kr")) (codes "kis_kr") n c.first c.second d,
      )
  keys_at-store_keys us c n d =
      let first = store fernet key (seed (codes "kis_us")) (codes "kis_us") c.first c.second d in
      ground (
        arith,
        keys_at-store (seed (codes "kis_account")) (codes "kis_account") n c.account_no [] first,
        keys_at-store (seed (codes "kis_us")) (codes "kis_us") n c.first c.second d,
      )
  keys_at-store_keys upbit c n d =
      ground (arith, keys_at-store (seed (codes "upbit")) (codes "upbit") n c.first c.second d)
  keys_at-store_keys binance c n d =
      ground (arith, keys_at-store (seed (codes "binance")) (codes "binance") n c.first c.second d)
  keys_at-store_keys hl c n d =
      ground (arith, keys_at-store (seed (codes "hl")) (codes "hl") n c.first c.second d)
  keys_at-store_keys poly c n d = refl

  pub keys_at-setup_markets :
      (ms : List Market) (choice : Market → Choice) (n : Str) (d : Disk K B)
      → keys_at n (setup_markets fernet key seed ms choice d).keys
        ≡ left_under ms choice n (keys_at n d.keys)
  unfolding setup_markets setup_market
  keys_at-setup_markets [] choice n d = refl
  keys_at-setup_markets (m ∷ ms) choice n d =
      keys_at-setup_markets ms choice n (setup_market fernet key seed m (choice m) d)
      ∙ ground (arith, keys_at-store_keys m (choice m) n d.keys)

valid_market_name : (m : Market) → member (market_name m) valid_markets ≡ true
unfolding str_eq
valid_market_name kr = refl
valid_market_name us = refl
valid_market_name upbit = refl
valid_market_name binance = refl
valid_market_name hl = refl
valid_market_name poly = refl

pub enable-known :
    (mm : MarketManager) (m : Market) (mode : Str) → enable mm (market_name m) mode ≡ none → ⊥
unfolding enable
enable-known mm m mode h = ground (arith, valid_market_name m)

module _ {F K B : Type 0} (fernet : Fernet F K B) (key : K) (seed : Str → B) where
  settings-setup_market :
      (m : Market) (c : Choice) (k : Str) (d : Disk K B)
      → (let after = (setup_market fernet key seed m c d).markets in
          (is_active after k
            ≡ (if c.chosen && str_eq (market_name m) k then true else is_active d.markets k))
          × (get_mode after k
              ≡ (if c.chosen && str_eq (market_name m) k then c.mode else get_mode d.markets k)))
  unfolding setup_market
  settings-setup_market m c k d = elim (Option-cases (enable d.markets (market_name m) c.mode)) [
    | inl unknown ↦ absurd (enable-known d.markets m c.mode unknown)
    | inr (after, e) ↦
        ground (arith, enable_lem d.markets (market_name m) c.mode k {after = after} e)
  ]

  pub settings-setup_markets :
      (ms : List Market) (choice : Market → Choice) (k : Str) (d : Disk K B)
      → (let after = (setup_markets fernet key seed ms choice d).markets in
          (is_active after k ≡ active_after ms choice k (is_active d.markets k))
          × (get_mode after k ≡ mode_after ms choice k (get_mode d.markets k)))
  unfolding setup_markets
  settings-setup_markets [] choice k d = (refl, refl)
  settings-setup_markets (m ∷ ms) choice k d =
      let now = setup_market fernet key seed m (choice m) d in
      let step = settings-setup_market m (choice m) k d in
      let rest = settings-setup_markets ms choice k now in
      (rest.0 ∙ ap (active_after ms choice k) step.0, rest.1 ∙ ap (mode_after ms choice k) step.1)
