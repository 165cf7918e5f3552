-- ===== src/Cli/Market.antt =====
-- hydra/cli/market.py: each command is a process of its own, which opens the file of the markets.
use hydra_engine.Base.{
  ◌≡◌, ◌∙◌, true, false, Option, none, some, List, [], ◌∷◌, ◌++◌, arith, if◌then◌else◌,
  Option-cases, inl, inr,
}
use hydra_engine.Text.{Str, codes, str_eq, str_eq_refl, member}
use hydra_engine.Dict.{lookup}
use hydra_engine.Config.Markets.{
  MarketManager, MarketFile, holding, open_file, entries, enable, enable_lem, disable, is_active,
  get_mode, get_active_markets, valid_markets, paper,
}
use hydra_engine.Cli.Output.{Output, says, fails, joined}

abbrev enabled_text : Str → Str → Str
enabled_text market mode = codes "[완료] " ++ (market ++ (codes " 활성화 (" ++ (mode ++ codes " 모드)")))

abbrev disabled_text : Str → Str
disabled_text market = codes "[완료] " ++ (market ++ codes " 비활성화")

abbrev pub saved_by : Str → Str → MarketFile → Option MarketManager → Output × MarketFile
saved_by market mode file none = (fails [], file)
saved_by market mode file (some m) = (says (enabled_text market mode), holding m.saved)

unfoldable pub enable_command : Str → Str → MarketFile → Output × MarketFile
unfolding enable open_file
enable_command market mode file = saved_by market mode file (enable (open_file file) market mode)

-- A market without an entry is not saved.
unfoldable pub disable_command : Str → MarketFile → Output × MarketFile
unfolding disable open_file
disable_command market file = (
  says (disabled_text market),
  elim (lookup market (entries (open_file file))) [
    | none ↦ file
    | some e ↦ holding (disable (open_file file) market).saved
  ],
)

abbrev list_text : List Str → Str
list_text [] = codes "활성화된 시장 없음. 'hydra market enable <market>'로 활성화하세요."
list_text (m ∷ ms) = codes "활성 시장: " ++ joined (codes ", ") (m ∷ ms)

unfoldable pub list_markets : MarketFile → Output
unfolding get_active_markets open_file
list_markets file = says (list_text (get_active_markets (open_file file)))

-- `_save` replaces the whole file by the copy of its process.
abbrev pub overwritten : MarketManager → MarketFile → MarketFile
overwritten m file = holding m.saved

is_active-open_file :
    (m : MarketManager) (k : Str)
    → m.saved ≡ m.markets
    → (is_active (open_file (holding m.saved)) k ≡ is_active m k)
      × (get_mode (open_file (holding m.saved)) k ≡ get_mode m k)
unfolding is_active get_mode open_file
is_active-open_file m k h = ground arith

enable-valid :
    (m : MarketManager) (market mode : Str)
    → member market valid_markets ≡ true
    → enable m market mode ≡ none
    → ⊥
unfolding enable
enable-valid m market mode known h = ground arith

-- A market that the command line enables is active for the next process that opens the file, in the
-- mode that was asked for; the other markets are as they were.
pub enable_command_lem :
    (market mode k : Str) (file : MarketFile)
    → member market valid_markets ≡ true
    → (is_active (open_file (enable_command market mode file).1) k
        ≡ (if str_eq market k then true else is_active (open_file file) k))
      × (get_mode (open_file (enable_command market mode file).1) k
          ≡ (if str_eq market k then mode else get_mode (open_file file) k))
unfolding enable_command
enable_command_lem market mode k file known =
    elim (Option-cases (enable (open_file file) market mode)) [
      | inl unknown ↦ absurd (enable-valid (open_file file) market mode known unknown)
      | inr (m, e) ↦
          ground (
            arith,
            enable_lem (open_file file) market mode k {after = m} e,
            is_active-open_file m k,
          )
    ]

-- The running server keeps the copy of the file that it opened at its start. A known market that the
-- command line enables meanwhile is active in the file, in the mode that was asked for. When the server then
-- enables another market, it writes its own copy back: the market is active in the file, and in the mode,
-- exactly as it was in the server's copy, so that the command is lost.
pub enable_overwrites :
    (server after : MarketManager) (file : MarketFile) (market k mode : Str)
    → member k valid_markets ≡ true
    → enable server market paper ≡ some after
    → str_eq market k ≡ false
    → (is_active (open_file (enable_command k mode file).1) k ≡ true)
      × (get_mode (open_file (enable_command k mode file).1) k ≡ mode)
      × (is_active (open_file (overwritten after (enable_command k mode file).1)) k
          ≡ is_active server k)
      × (get_mode (open_file (overwritten after (enable_command k mode file).1)) k
          ≡ get_mode server k)
enable_overwrites server after file market k mode known e apart =
    let done = enable_lem server market paper k {after = after} e in
    let (active, its_mode) = enable_command_lem k mode k file known in
    let (active', its_mode') = is_active-open_file after k done.3 in
    (
      active ∙ ground (arith, str_eq_refl k),
      its_mode ∙ ground (arith, str_eq_refl k),
      active' ∙ ground (arith, done),
      its_mode' ∙ ground (arith, done),
    )
