-- ===== src/Config/Settings.antt =====
-- hydra/config/settings.py: the settings of a process, from its environment and the file ".env". The
-- library pydantic-settings with its reader of the file is a parameter.
use hydra_engine.Base.{
  arith, ℕ, ◌≡◌, Bool, true, ◌&&◌, Option, none, [], ◌∷◌, ◌++◌, All, get_or, leb, ◌||◌, ◌==◌,
}
use hydra_engine.Text.{Str, codes, str_eq}
use hydra_engine.Dict.{Dict, lookup}

pub record Settings : Type 0 where
  pub hydra_api_key : Str
  pub hydra_profile : Str
  pub redis_url : Str
  pub db_url : Str
  pub telegram_bot_token : Str
  pub telegram_chat_id : Str
  pub log_level : Str

-- A value of the environment wins over one of the file.
abbrev pub setting : (Str → Option Str) → Dict Str → Str → Str → Str
setting environ file name default = get_or (environ name) (get_or (lookup name file) default)

-- `Settings()`
unfoldable pub settings_of : (Str → Option Str) → Dict Str → Settings
unfolding lookup
settings_of environ file = record {
  hydra_api_key = setting environ file (codes "HYDRA_API_KEY") (codes "change-me");
  hydra_profile = setting environ file (codes "HYDRA_PROFILE") (codes "lite");
  redis_url = setting environ file (codes "REDIS_URL") (codes "redis://localhost:6379");
  db_url = setting environ file (codes "DB_URL") (codes "sqlite:///data/hydra.db");
  telegram_bot_token = setting environ file (codes "TELEGRAM_BOT_TOKEN") [];
  telegram_chat_id = setting environ file (codes "TELEGRAM_CHAT_ID") [];
  log_level = setting environ file (codes "LOG_LEVEL") (codes "INFO");
}

-- Whether the validator of the key warns; it never refuses.
unfoldable pub api_key_must_not_be_default : Settings → Bool
unfolding str_eq
api_key_must_not_be_default s = str_eq s.hydra_api_key (codes "change-me")

-- The lines "NAME=value" of a file.
abbrev pub env_lines : Dict Str → Str
env_lines [] = []
env_lines ((name, value) ∷ rest) = name ++ (codes "=" ++ (value ++ (10 ∷ env_lines rest)))

-- The characters that stand for themselves in a value without quotes: letters, digits and - _ : / .
abbrev pub is_plain : ℕ → Bool
is_plain c =
    (leb b'a' c && leb c b'z')
    || (leb b'A' c && leb c b'Z')
    || (leb b'-' c && leb c b':')
    || (c == b'_')

abbrev pub IsPlain : Str → Type 0
IsPlain s = All (λ c. is_plain c ≡ true) s

-- The test of all the characters.
abbrev pub all_plain : Str → Bool
all_plain [] = true
all_plain (c ∷ s) = is_plain c && all_plain s

pub all_plain-IsPlain : (s : Str) → all_plain s ≡ true → IsPlain s
all_plain-IsPlain [] h = tt
all_plain-IsPlain (c ∷ s) h = (ground arith, all_plain-IsPlain s (ground arith))

-- Every name and every value is plain, and no name comes twice.
abbrev pub PlainLines : Dict Str → Type 0
PlainLines [] = Unit
PlainLines ((name, value) ∷ rest) =
    (IsPlain name × IsPlain value × (lookup name rest ≡ none)) × PlainLines rest

-- What the reader of the file does with plain lines.
abbrev pub DotenvLaw : (Str → Dict Str) → Type 0
DotenvLaw dotenv = (d : Dict Str) → PlainLines d → dotenv (env_lines d) ≡ d
