-- ===== src/Cli/Keyed.antt =====
-- The key that the wizard makes, in the process and in the commands.
use hydra_engine.Base.{
  ◌≡◌, refl, sym, ap, ◌∙◌, true, false, Option, none, some, [], ◌∷◌, arith, Bool-cases, inl, inr,
}
use mathlib.Core.Path.{subst}
use hydra_engine.Text.{Str, codes, str_eq, str_eq_sound, str_eq_complete, member}
use hydra_engine.Dict.{Dict, lookup}
use hydra_engine.Config.Settings.{
  settings_of, api_key_must_not_be_default, env_lines, IsPlain, all_plain-IsPlain, PlainLines,
  DotenvLaw,
}
use hydra_engine.Cli.Setup.{Answers, Disk, Hardware, finished, profiles, env_content, run_setup}
use hydra_engine.Cli.Connected.{finished-run_setup}
use hydra_engine.Config.KeyManager.{Fernet, FernetLaw}
use hydra_engine.Api.Types.{App}
use hydra_engine.Api.Guard.{key_accepted}

-- The three settings of the file.
abbrev pub env_of : Str → Str → Dict Str
env_of profile api_key =
    (codes "HYDRA_PROFILE", profile)
    ∷ (codes "HYDRA_API_KEY", api_key)
    ∷ (codes "REDIS_URL", codes "redis://localhost:6379")
    ∷ []

env_content-env_lines :
    (profile api_key : Str) → env_content profile api_key ≡ env_lines (env_of profile api_key)
env_content-env_lines profile api_key = refl

IsPlain-profile : (profile : Str) → member profile profiles ≡ true → IsPlain profile
IsPlain-profile profile h =
    all_plain-IsPlain profile (elim (Bool-cases (str_eq profile (codes "lite"))) [
      | inl lite ↦ rw (str_eq_sound profile (codes "lite") lite) refl
      | inr not_lite ↦ elim (Bool-cases (str_eq profile (codes "pro"))) [
        | inl pro ↦ rw (str_eq_sound profile (codes "pro") pro) refl
        | inr not_pro ↦ rw (str_eq_sound profile (codes "expert") (ground arith)) refl
      ]
    ])

PlainLines-env_of :
    (profile api_key : Str)
    → member profile profiles ≡ true
    → IsPlain api_key
    → PlainLines (env_of profile api_key)
unfolding lookup str_eq
PlainLines-env_of profile api_key known plain = (
  (all_plain-IsPlain (codes "HYDRA_PROFILE") refl, IsPlain-profile profile known, refl),
  (
    (all_plain-IsPlain (codes "HYDRA_API_KEY") refl, plain, refl),
    (
      (
        all_plain-IsPlain (codes "REDIS_URL") refl,
        all_plain-IsPlain (codes "redis://localhost:6379") refl,
        refl,
      ),
      tt,
    ),
  ),
)

-- The environment sets none of the settings.
abbrev pub no_environ : Str → Option Str
no_environ name = none

settings-env_of :
    (dotenv : Str → Dict Str) (profile api_key : Str)
    → DotenvLaw dotenv
    → member profile profiles ≡ true
    → IsPlain api_key
    → settings_of no_environ (dotenv (env_content profile api_key))
      ≡ settings_of no_environ (env_of profile api_key)
settings-env_of dotenv profile api_key law known plain =
    ap (settings_of no_environ)
      (law (env_of profile api_key) (PlainLines-env_of profile api_key known plain))

profile-env_of :
    (profile api_key : Str)
    → (settings_of no_environ (env_of profile api_key)).hydra_profile ≡ profile
unfolding settings_of lookup str_eq
profile-env_of profile api_key = refl

key-env_of :
    (profile api_key : Str)
    → (settings_of no_environ (env_of profile api_key)).hydra_api_key ≡ api_key
unfolding settings_of lookup str_eq
key-env_of profile api_key = refl

some_injective : (a b : Str) → some a ≡ some b → a ≡ b
some_injective a b h = cc

module _ {F K B : Type 0} (fernet : Fernet F K B) (law : FernetLaw fernet) (fresh : K)
    (seed : Str → B) (api_key : Str) where
  -- After a wizard that finished, a process without settings in its environment reads one of the three
  -- profiles from the file, is not warned about the key, and its guard accepts the key that the wizard has
  -- made: for a key that is not empty, is not the default one, and has plain characters only.
  pub wizard_key_accepted :
      (dotenv : Str → Dict Str) (hw : Hardware) (answers : Answers) (d after : Disk K B) (env : Str)
      (app : App F)
      → DotenvLaw dotenv
      → IsPlain api_key
      → str_eq api_key [] ≡ false
      → str_eq api_key (codes "change-me") ≡ false
      → run_setup fernet fresh seed api_key hw answers d ≡ (finished, after)
      → after.env ≡ some env
      → app.hydra_api_key ≡ (settings_of no_environ (dotenv env)).hydra_api_key
      → (member (settings_of no_environ (dotenv env)).hydra_profile profiles ≡ true)
        × (api_key_must_not_be_default (settings_of no_environ (dotenv env)) ≡ false)
        × (key_accepted app (some api_key) ≡ true)
  unfolding api_key_must_not_be_default key_accepted
  wizard_key_accepted dotenv hw answers d after env app read plain filled own h written configured =
      let (profile, known, agreed, e) =
        finished-run_setup fernet law fresh seed api_key hw answers d after h in
      let content =
        some_injective (env_content profile api_key) env (sym (ap (λ x. x.env) e) ∙ written) in
      let same =
        ap (λ text. settings_of no_environ (dotenv text)) (sym content)
        ∙ settings-env_of dotenv profile api_key read known plain in
      let file_profile = ap (λ x. x.hydra_profile) same ∙ profile-env_of profile api_key in
      let file_key = ap (λ x. x.hydra_api_key) same ∙ key-env_of profile api_key in
      (
        subst (λ p. member p profiles ≡ true) (sym file_profile) known,
        subst (λ k. str_eq k (codes "change-me") ≡ false) (sym file_key) own,
        ground (arith, str_eq_complete api_key app.hydra_api_key (sym (configured ∙ file_key))),
      )
