-- ===== src/Config/KeyManager.antt =====
-- hydra/config/keys.py: the keys of the exchanges, each in an encrypted file. Fernet, of the package
-- cryptography, is a parameter.
use hydra_engine.Base.{◌≡◌, refl, Option, none, some, if◌then◌else◌, arith, Option-cases, inl, inr}
use hydra_engine.Text.{Str, codes, str_eq}
use hydra_engine.Dict.{Dict, lookup, insert, lookup-insert}
use hydra_engine.Json.{Json, str, obj, field, end, member?, Payload, dumped}
use hydra_engine.Exec.{Result, ok, err, and_then}
use hydra_engine.Core.Types.{Error}
use hydra_engine.Core.PositionTracker.{decode}
use hydra_engine.Core.OrderQueue.{fields_of, subscript}

-- A key of type `K` and tokens of type `B`. `encrypt` takes the random bytes of a token from `seed`.
pub record Fernet (F K B : Type 0) : Type 0 where
  pub encrypt : K → B → Payload F → B
  pub decrypt : K → B → Option (Payload F)

-- A token is decrypted by the key that encrypted it.
abbrev pub FernetLaw : {F K B : Type 0} → Fernet F K B → Type 0
FernetLaw {F} {K} {B} fernet =
    (key : K) (seed : B) (p : Payload F) → fernet.decrypt key (fernet.encrypt key seed p) ≡ some p

-- The directory: the master key, if its file exists, and the file "{exchange}.enc" of each exchange.
pub record KeyDir (K B : Type 0) : Type 0 where
  pub master_key : Option K
  pub files : Dict B

pub data KeyError (F : Type 0) : Type 0 where
  file_not_found : KeyError F
  invalid_token : KeyError F
  bad_payload : Error F → KeyError F

module _ {K B : Type 0} where
  -- The key of the manager, and the directory after its construction; `fresh` is what `generate_key` gives.
  unfoldable pub load_or_create_fernet : K → KeyDir K B → K × KeyDir K B
  load_or_create_fernet fresh d = elim d.master_key [
    | some key ↦ (key, d)
    | none ↦ (fresh, record d { master_key = some fresh })
  ]

module _ {F : Type 0} where
  abbrev pub lifted : {A : Type 0} → Result (Error F) A → Result (KeyError F) A
  lifted (ok a) = ok a
  lifted (err e) = err (bad_payload e)

  unfoldable pub keys_json : Str → Str → Json F
  keys_json api_key secret =
      obj (field (codes "api_key") (str api_key) (field (codes "secret") (str secret) end))

  -- `payload["api_key"], payload["secret"]`
  unfoldable pub keys_of : Payload F → Result (Error F) (Json F × Json F)
  keys_of payload = and_then (decode payload) λ j. and_then (fields_of j) λ d.
      and_then (subscript (codes "api_key") d)
        λ api_key. and_then (subscript (codes "secret") d) λ secret. ok (api_key, secret)

module _ {F K B : Type 0} (fernet : Fernet F K B) (key : K) where
  unfoldable pub store : B → Str → Str → Str → KeyDir K B → KeyDir K B
  unfolding insert keys_json
  store seed exchange api_key secret d = record d {
    files = insert exchange (fernet.encrypt key seed (dumped (keys_json api_key secret))) d.files;
  }

  abbrev pub opened : Option (Payload F) → Result (KeyError F) (Json F × Json F)
  opened none = err invalid_token
  opened (some p) = lifted (keys_of p)

  abbrev pub load_file : Option B → Result (KeyError F) (Json F × Json F)
  load_file none = err file_not_found
  load_file (some token) = opened (fernet.decrypt key token)

  unfoldable pub load : Str → KeyDir K B → Result (KeyError F) (Json F × Json F)
  unfolding lookup keys_of
  load exchange d = load_file (lookup exchange d.files)

pub keys_of-keys_json :
    {F : Type 0} (api_key secret : Str)
    → keys_of {F = F} (dumped (keys_json api_key secret)) ≡ ok (str api_key, str secret)
unfolding keys_of keys_json member? str_eq
keys_of-keys_json api_key secret = refl

-- What was stored for an exchange is what a manager loads that is made later over the same directory, also
-- when the first one made the master key; the keys of the other exchanges stay what they were.
pub load-store :
    {F K B : Type 0} (fernet : Fernet F K B) (law : FernetLaw fernet) (fresh other_fresh : K)
    (seed : B) (exchange asked api_key secret : Str) (d : KeyDir K B)
    → (let made = load_or_create_fernet fresh d in
        let later =
          load_or_create_fernet other_fresh
            (store fernet made.0 seed exchange api_key secret made.1) in
        load fernet later.0 asked later.1)
      ≡ (if str_eq exchange asked
          then ok (str api_key, str secret)
          else load fernet (load_or_create_fernet fresh d).0 asked d)
unfolding load_or_create_fernet store load
load-store {F} fernet law fresh other_fresh seed exchange asked api_key secret d =
    elim (Option-cases d.master_key) [
      | inl missing ↦ ground (
        arith,
        lookup-insert exchange asked (fernet.encrypt fresh seed (dumped (keys_json api_key secret)))
            d.files,
        law fresh seed (dumped (keys_json api_key secret)),
        keys_of-keys_json {F = F} api_key secret,
      )
      | inr (key, found) ↦ ground (
        arith,
        lookup-insert exchange asked (fernet.encrypt key seed (dumped (keys_json api_key secret)))
            d.files,
        law key seed (dumped (keys_json api_key secret)),
        keys_of-keys_json {F = F} api_key secret,
      )
    ]
