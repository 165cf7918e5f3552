-- ===== src/Examples/Dotenv.antt =====
-- A reader of plain lines, and the run of the wizard with it.
use mathlib.Core.List.{append_assoc}
use mathlib.Core.Path.{subst}
use hydra_engine.Base.{
  ℕ, ◌≡◌, refl, sym, ap, ◌∙◌, true, false, some, List, [], ◌∷◌, ◌++◌, arith, ◌==◌, ==_iff,
  Bool-cases, inl, inr,
}
use hydra_engine.Text.{Str, codes, str_eq, member}
use hydra_engine.Text.Split.{split, Free, split-append, split-Free}
use hydra_engine.Dict.{Dict}
use hydra_engine.Float.Fixed.{ℤ}
use hydra_engine.Config.Settings.{
  settings_of, api_key_must_not_be_default, env_lines, is_plain, IsPlain, DotenvLaw,
}
use hydra_engine.Api.Types.{App}
use hydra_engine.Api.Guard.{key_accepted}
use hydra_engine.Cli.Setup.{profiles, env_content}
use hydra_engine.Cli.Keyed.{no_environ, wizard_key_accepted}
use hydra_engine.Examples.Outside.{fernet, fernet-law}
use hydra_engine.Examples.Http.{app}
use hydra_engine.Examples.Operator.{seed, laptop, answers, blank, installed, wizard_done}

abbrev add_pair : List Str → Dict Str → Dict Str
add_pair (name ∷ (value ∷ [])) rest = (name, value) ∷ rest
add_pair _ rest = rest

abbrev read_lines : List Str → Dict Str
read_lines [] = []
read_lines (l ∷ ls) = add_pair (split b'=' l) (read_lines ls)

abbrev dotenv : Str → Dict Str
dotenv text = read_lines (split 10 text)

Free-append : (sep : ℕ) (s t : Str) → Free sep s → Free sep t → Free sep (s ++ t)
Free-append sep [] t h k = k
Free-append sep (c ∷ s) t h k = (h.0, Free-append sep s t h.1 k)

IsPlain-Free : (sep : ℕ) (s : Str) → is_plain sep ≡ false → IsPlain s → Free sep s
IsPlain-Free sep [] h k = tt
IsPlain-Free sep (c ∷ s) h k = (
  elim (Bool-cases (c == sep)) [
    | inl same ↦
        absurd (ground (arith, h, subst (λ x. is_plain x ≡ true) ((==_iff c sep).0 same) k.0))
    | inr other ↦ other
  ],
  IsPlain-Free sep s h k.1,
)

dotenv-cons :
    (name value rest : Str)
    → IsPlain name
    → IsPlain value
    → dotenv (name ++ (b'=' ∷ (value ++ (10 ∷ rest)))) ≡ (name, value) ∷ dotenv rest
dotenv-cons name value rest h k =
    let line = name ++ (b'=' ∷ value) in
    let free =
      Free-append 10 name (b'=' ∷ value) (IsPlain-Free 10 name refl h)
        (refl, IsPlain-Free 10 value refl k) in
    ap dotenv (sym (append_assoc name (b'=' ∷ value) (10 ∷ rest)))
    ∙ (ap read_lines
          (split-append 10 line rest ∙ ap (λ ps. ps ++ split 10 rest) (split-Free 10 line free))
        ∙ ap (λ ps. add_pair ps (dotenv rest))
            (split-append b'=' name value
              ∙ (ap (λ ps. ps ++ split b'=' value)
                    (split-Free b'=' name (IsPlain-Free b'=' name refl h))
                  ∙ ap (λ ps. name ∷ ps) (split-Free b'=' value (IsPlain-Free b'=' value refl k)))))

dotenv-law : DotenvLaw dotenv
unfolding split
dotenv-law [] h = refl
dotenv-law ((name, value) ∷ d) h =
    dotenv-cons name value (env_lines d) h.0.0 h.0.1
    ∙ ap (λ e. (name, value) ∷ e) (dotenv-law d h.1)

abbrev env : Str
env = env_content (codes "lite") (codes "k")

abbrev configured : App ℤ
configured = record app { hydra_api_key = (settings_of no_environ (dotenv env)).hydra_api_key }

not_default : str_eq (codes "k") (codes "change-me") ≡ false
unfolding str_eq
not_default = refl

not_empty : str_eq (codes "k") [] ≡ false
unfolding str_eq
not_empty = refl

wizard_key_accepted_example :
    (member (settings_of no_environ (dotenv env)).hydra_profile profiles ≡ true)
    × (api_key_must_not_be_default (settings_of no_environ (dotenv env)) ≡ false)
    × (key_accepted configured (some (codes "k")) ≡ true)
wizard_key_accepted_example =
    wizard_key_accepted fernet fernet-law 7 seed (codes "k") dotenv laptop answers blank installed
      env configured dotenv-law (refl, tt) not_empty not_default wizard_done refl refl
