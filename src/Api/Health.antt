-- ===== src/Api/Health.antt =====
-- hydra/api/health.py
use hydra_engine.Base.{
  ℕ, Bool, true, false, ◌||◌, Option, some, List, [], ◌∷◌, drop, length, if◌then◌else◌,
}
use hydra_engine.Text.{Str, codes, str_eq}
use hydra_engine.Text.Split.{split}
use hydra_engine.Json.{Payload, text}
use hydra_engine.Dict.{Dict, insert}
use hydra_engine.Redis.{Redis, starts_with}
use hydra_engine.EventKeys.{colon}
use hydra_engine.Api.Types.{health_answer, Response, reply, crash}

abbrev pub collector_prefix : Str
collector_prefix = codes "hydra:collector:"

-- The text ends in `suffix`.
unfoldable pub ends_with : Str → Str → Bool
unfolding str_eq
ends_with suffix [] = str_eq [] suffix
ends_with suffix (c ∷ s) =
    let rest = ends_with suffix s in if str_eq (c ∷ s) suffix then true else rest

-- The keys of "hydra:collector:*:status", among those of its prefix: after the prefix the key ends in
-- the rest of the pattern.
unfoldable pub status_keys : List Str → List Str
status_keys [] = []
status_keys (k ∷ ks) =
    let rest = status_keys ks in
    if ends_with (codes ":status") (drop (length collector_prefix) k) then k ∷ rest else rest

-- `key.split(":")[2]`; a key of the pattern has a third part.
abbrev pub third : List Str → Str
third (a ∷ (b ∷ (c ∷ ps))) = c
third _ = []

module _ {F : Type 0} where
  -- `v and v.startswith("error:")`
  unfoldable pub is_error : Option (Payload F) → Bool
  unfolding starts_with
  is_error (some (text s)) = starts_with (codes "error:") s
  is_error _ = false

  abbrev pub any_error : Dict (Option (Payload F)) → Bool
  any_error [] = false
  any_error ((k, v) ∷ d) = is_error v || any_error d

module _ {F R : Type 0} (redis : Redis F R) where
  unfoldable pub collectors : R → List Str → Dict (Option (Payload F)) → Dict (Option (Payload F))
  unfolding insert split
  collectors r [] d = d
  collectors r (k ∷ ks) d = collectors r ks (insert (third (split colon k)) (redis.get r k) d)

  -- `answers`: the calls of Redis come back; one that raises ends in a 500.
  unfoldable pub get_health : Bool → Bool → ℕ → R → Response F
  unfolding collectors status_keys is_error
  get_health answers started uptime r =
      if started
      then if answers
        then (let d = collectors r (status_keys (redis.keys r collector_prefix)) [] in
            reply 200
              (health_answer (if any_error d then codes "degraded" else codes "ok") uptime d))
        else crash
      else reply 200 (health_answer (codes "ok") uptime [])
