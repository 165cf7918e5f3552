-- ===== src/Redis/Memory.antt =====
-- An instance of the Redis interface, for the concrete inputs of the tests: a server that keeps its
-- string keys and its hash fields in association lists.
use hydra_engine.Base.{
  ℕ, suc, ◌≡◌, refl, true, false, ◌&&◌, some, List, [], ◌∷◌, if◌then◌else◌, is_some, arith, get_or,
}
use hydra_engine.Text.{Str, str_eq, str_eq_iff, member}
use hydra_engine.Dict.{Dict, lookup, insert, remove, lookup-insert, lookup-remove}
use hydra_engine.Json.{Payload, count, decimal}
use hydra_engine.Float.{Float}
use hydra_engine.Redis.Client.{Redis, RedisLaws, starts_with, stored_float, stored_count}

pub record Server (F : Type 0) : Type 0 where
  pub strings : Dict (Payload F)
  pub hashes : Dict (Dict (Payload F))

abbrev pub empty_server : {F : Type 0} → Server F
empty_server = record { strings = []; hashes = [] }

-- The keys of a dictionary with a prefix.
keys_with {ℓ} : {V : Type ℓ} → Str → Dict V → List Str
keys_with p [] = []
keys_with p ((j, w) ∷ d) = if starts_with p j then j ∷ keys_with p d else keys_with p d

member-keys_with {ℓ} :
    {V : Type ℓ} (p k : Str) (d : Dict V)
    → member k (keys_with p d) ≡ (starts_with p k && is_some (lookup k d))
unfolding keys_with lookup
member-keys_with p k [] = ground arith
member-keys_with p k ((j, w) ∷ d) =
    ground (arith, str_eq_iff k j, str_eq_iff j k, member-keys_with p k d)

module _ {F : Type 0} (f : Float F) where
  unfoldable pub memory : Redis F (Server F)
  unfolding lookup insert remove keys_with starts_with str_eq
  memory = record {
    get = λ m k. lookup k m.strings;
    set = λ m k v. record m { strings = insert k v m.strings };
    set_ex = λ m k v t. record m { strings = insert k v m.strings };
    set_nx_ex = λ m k v t.
        if is_some (lookup k m.strings)
        then (false, m)
        else (true, record m { strings = insert k v m.strings });
    delete = λ m k. record m { strings = remove k m.strings };
    keys = λ m p. keys_with p m.strings;
    incrbyfloat = λ m k x.
        let old = get_or (stored_float f (lookup k m.strings)) (f.lit 0 0) in
        record m { strings = insert k (decimal (f.add old x)) m.strings };
    incr = λ m k.
        let old : ℕ = get_or (stored_count (lookup k m.strings)) 0 in
        record m { strings = insert k (count (suc old)) m.strings };
    hset = λ m h k v. record m {
      hashes = insert h (insert k v (get_or (lookup h m.hashes) [])) m.hashes;
    };
    hget = λ m h k. lookup k (get_or (lookup h m.hashes) []);
  }

  hget-hset :
      (hs : Dict (Dict (Payload F))) (h g k j : Str) (v : Payload F)
      → lookup j (get_or (lookup g (insert h (insert k v (get_or (lookup h hs) [])) hs)) [])
        ≡ (if str_eq h g && str_eq k j then some v else lookup j (get_or (lookup g hs) []))
  hget-hset hs h g k j v = ground (
    arith,
    lookup-insert h g (insert k v (get_or (lookup h hs) [])) hs,
    lookup-insert k j v (get_or (lookup h hs) []),
    str_eq_iff h g,
  )

module _ {F : Type 0} (f : Float F) where
  pub memory-RedisLaws : RedisLaws f (memory f)
  unfolding memory
  memory-RedisLaws = record {
    get-set = λ r k j v. lookup-insert k j v r.strings;
    get-set_ex = λ r k j v t. lookup-insert k j v r.strings;
    set_nx_ex_lem = λ r k v t. refl;
    get-delete = λ r k j. lookup-remove k j r.strings;
    member-keys = λ r p k. member-keys_with p k r.strings;
    get-incrbyfloat = λ r k j x y e. rw e (lookup-insert k j (decimal (f.add y x)) r.strings);
    get-incr = λ r k j n e. rw e (lookup-insert k j (count (suc n)) r.strings);
    hget-hset = λ r h g k j v. hget-hset f r.hashes h g k j v;
  }
