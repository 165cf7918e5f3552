-- ===== src/Core/StateManager.antt =====
-- hydra/core/state_manager.py: values with their time in the fields of one hash.
use hydra_engine.Base.{◌≡◌, refl, Option, none, some, [], ◌∷◌, if◌then◌else◌, arith}
use hydra_engine.Text.{Str, codes, str_eq, str_eq_iff}
use hydra_engine.Dict.{Dict, lookup}
use hydra_engine.Float.{Float}
use hydra_engine.Json.{Json, num, obj, field, end, member?, Payload, dumped}
use hydra_engine.Redis.{Redis, RedisLaws}
use hydra_engine.Exec.{Result, ok, err, and_then}
use hydra_engine.Core.Types.{Error}
use hydra_engine.Core.PositionTracker.{decode}
use hydra_engine.Core.OrderQueue.{subscript, fields_of}

unfoldable pub state_key : Str
state_key = codes "hydra:state"

module _ {F R : Type 0} (redis : Redis F R) where
  unfoldable pub save : R → F → Str → Json F → R
  save r ts key value =
      redis.hset r state_key key
        (dumped (obj (field (codes "value") value (field (codes "ts") (num ts) end))))

  unfoldable pub load : R → Str → Json F → Result (Error F) (Json F)
  unfolding member?
  load r key default = elim (redis.hget r state_key key) [
    | none ↦ ok default
    | some raw ↦ and_then (decode raw) λ j. and_then (fields_of j) (subscript (codes "value"))
  ]

  -- `ts` is the clock, which each `save` reads.
  unfoldable pub save_all : R → F → Dict (Json F) → R
  save_all r ts [] = r
  save_all r ts ((k, v) ∷ state) = save_all (save r ts k v) ts state

module _ {F : Type 0} where
  abbrev and_value :
      Str
      → Result (Error F) (Json F)
      → Result (Error F) (Dict (Json F))
      → Result (Error F) (Dict (Json F))
  and_value k (ok v) (ok d) = ok ((k, v) ∷ d)
  and_value k (ok v) (err e) = err e
  and_value k (err e) rest = err e

  -- `raw` is the answer of `hgetall`.
  unfoldable pub load_all : Dict (Payload F) → Result (Error F) (Dict (Json F))
  unfolding member?
  load_all [] = ok []
  load_all ((k, raw) ∷ rest) =
      and_value k (and_then (decode raw) λ j. and_then (fields_of j) (subscript (codes "value")))
        (load_all rest)

-- The fields of the hash after a dictionary was saved in an empty one, as `hgetall` returns them.
abbrev pub stored_fields : {F : Type 0} → F → Dict (Json F) → Dict (Payload F)
stored_fields ts [] = []
stored_fields ts ((k, v) ∷ state) =
    (k, dumped (obj (field (codes "value") v (field (codes "ts") (num ts) end))))
    ∷ stored_fields ts state

-- What was saved is loaded again.
pub load_all-stored_fields :
    {F : Type 0} (ts : F) (state : Dict (Json F)) → load_all (stored_fields ts state) ≡ ok state
unfolding load_all str_eq
load_all-stored_fields ts [] = refl
load_all-stored_fields ts ((k, v) ∷ state) = ground (arith, load_all-stored_fields ts state)

-- No key twice, as in a dictionary.
abbrev pub Distinct : {V : Type 0} → Dict V → Type 0
Distinct [] = Unit
Distinct ((k, v) ∷ d) = (lookup k d ≡ none) × Distinct d

-- What a key loads as: what was saved for it, or what it loaded as before.
abbrev pub saved :
    {F : Type 0} → Option (Json F) → Result (Error F) (Json F) → Result (Error F) (Json F)
saved none old = old
saved (some v) old = ok v

module _ {F R : Type 0} (f : Float F) (redis : Redis F R) (laws : RedisLaws f redis) where
  load-save :
      (r : R) (ts : F) (k j : Str) (v default : Json F)
      → load redis (save redis r ts k v) j default
        ≡ (if str_eq k j then ok v else load redis r j default)
  unfolding load save str_eq state_key
  load-save r ts k j v default = ground (
    arith,
    laws.hget-hset r state_key state_key k j
        (dumped (obj (field (codes "value") v (field (codes "ts") (num ts) end)))),
  )

  -- After a dictionary is saved, a key loads as the dictionary has it, and any other key as before.
  pub load-save_all :
      (r : R) (ts : F) (state : Dict (Json F)) (k : Str) (default : Json F)
      → Distinct state
      → load redis (save_all redis r ts state) k default
        ≡ saved (lookup k state) (load redis r k default)
  unfolding save_all lookup
  load-save_all r ts [] k default h = refl
  load-save_all r ts ((j, v) ∷ state) k default h = ground (
    arith,
    load-save_all (save redis r ts j v) ts state k default h.1,
    load-save r ts j k v default,
    str_eq_iff j k,
  )
