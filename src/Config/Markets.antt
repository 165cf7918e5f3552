-- ===== src/Config/Markets.antt =====
-- hydra/config/markets.py: the dictionary of markets, in memory and in the file.
use hydra_engine.Base.{
  ◌≡◌, Bool, true, false, Option, none, some, List, [], ◌∷◌, arith, if◌then◌else◌, get_or, inl, inr,
  Option-cases,
}
use hydra_engine.Text.{Str, codes, str_eq, str_eq_iff, member}
use hydra_engine.Dict.{Dict, lookup, insert, lookup-insert}

-- An entry of the file may lack a field.
pub record Entry : Type 0 where
  pub enabled : Option Bool
  pub mode : Option Str

-- `_data`: the value of the key "markets", if the file has it, and what the file holds.
pub record MarketManager : Type 0 where
  pub markets : Option (Dict Entry)
  pub saved : Option (Dict Entry)

abbrev pub valid_markets : List Str
valid_markets =
    codes "kr" ∷ codes "us" ∷ codes "upbit" ∷ codes "binance" ∷ codes "hl" ∷ codes "poly" ∷ []

abbrev pub paper : Str
paper = codes "paper"

abbrev blank : Entry
blank = record { enabled = none; mode = none }

-- `_data.get("markets", {})`
abbrev pub entries : MarketManager → Dict Entry
entries m = get_or m.markets []

-- The markets of a process that finds no file: all six, in some order, and none of them enabled.
abbrev pub all_disabled : List Str → Dict Entry
all_disabled [] = []
all_disabled (k ∷ ks) =
    (k, record { enabled = some false; mode = some (codes "paper") }) ∷ all_disabled ks

-- What the file holds: there is none, it is empty, or it has a dictionary, with a key "markets" or not.
pub data MarketFile : Type 0 where
  no_file : MarketFile
  empty_file : MarketFile
  holding : Option (Dict Entry) → MarketFile

-- `MarketManager()`: the manager of a new process, which has saved nothing yet.
unfoldable pub open_file : MarketFile → MarketManager
open_file no_file = record { markets = some (all_disabled valid_markets); saved = none }
open_file empty_file = record { markets = some []; saved = none }
open_file (holding markets) = record { markets = markets; saved = markets }

-- `_save`
unfoldable pub save : MarketManager → MarketManager
save m = record m { saved = m.markets }

abbrev pub entry_of : Option Entry → Entry
entry_of found = get_or found blank

unfoldable pub is_active : MarketManager → Str → Bool
is_active m market = get_or (entry_of (lookup market (entries m))).enabled false

unfoldable pub get_mode : MarketManager → Str → Str
get_mode m market = get_or (entry_of (lookup market (entries m))).mode paper

-- The entries that are enabled, in order.
unfoldable pub active_keys : Dict Entry → List Str
active_keys [] = []
active_keys ((k, e) ∷ d) = if get_or e.enabled false then k ∷ active_keys d else active_keys d

unfoldable pub get_active_markets : MarketManager → List Str
unfolding active_keys
get_active_markets m = active_keys (entries m)

-- `none` is the ValueError of an unknown market.
unfoldable pub enable : MarketManager → Str → Str → Option MarketManager
unfolding save
enable m market mode =
    if member market valid_markets
    then some (
        save (record m {
          markets =
              some (insert market (record { enabled = some true; mode = some mode }) (entries m));
        }))
    else none

abbrev pub disable_entry : MarketManager → Str → Option Entry → MarketManager
disable_entry m market none = m
disable_entry m market (some e) =
    save
      (record m { markets = some (insert market (record e { enabled = some false }) (entries m)) })

unfoldable pub disable : MarketManager → Str → MarketManager
unfolding save
disable m market = disable_entry m market (lookup market (entries m))

-- Enabling succeeds exactly for the six markets; then the market is active in the mode that was asked
-- for, every other market is as it was, and the file holds what the memory holds.
pub enable_lem :
    (m : MarketManager) (market mode other : Str) {after : MarketManager}
    → enable m market mode ≡ some after
    → (member market valid_markets ≡ true)
      × (is_active after other ≡ (if str_eq market other then true else is_active m other))
      × (get_mode after other ≡ (if str_eq market other then mode else get_mode m other))
      × (after.saved ≡ after.markets)
unfolding enable is_active get_mode
enable_lem m market mode other h = ground (
  arith,
  lookup-insert market other (record { enabled = some true; mode = some mode }) (entries m),
)

-- Disabling makes the market inactive and changes neither its mode nor any other market.
pub disable_lem :
    (m : MarketManager) (market other : Str)
    → (is_active (disable m market) other
        ≡ (if str_eq market other then false else is_active m other))
      × (get_mode (disable m market) other ≡ get_mode m other)
unfolding disable is_active get_mode
disable_lem m market other = elim (Option-cases (lookup market (entries m))) [
  | inl missing ↦ ground (arith, str_eq_iff market other)
  | inr (e, found) ↦ ground (
    arith,
    lookup-insert market other (record e { enabled = some false }) (entries m),
    str_eq_iff market other,
  )
]
