-- ===== src/Redis/Client.antt =====
-- The Redis client: the commands that the program issues, with the documented behaviour that it
-- relies on, as an interface. `R` is the state of the server at one instant. That a key with a time
-- to live disappears later is no command; where it matters it is a step of its own.
use hydra_engine.Base.{
  refl, ap, arith, inl, inr, Bool-cases, ◌++◌, ℕ, suc, ◌≡◌, Bool, true, false, ◌&&◌, Option, none,
  some, List, [], ◌∷◌, if◌then◌else◌, is_some,
}
use hydra_engine.Text.{Str, str_eq, str_eq_refl, str_eq_sound, member}
use hydra_engine.Json.{Payload, read_float, count, decimal}
use hydra_engine.Float.{Float}

-- `glob` patterns of the source are a prefix and a star.
unfoldable pub starts_with : Str → Str → Bool
unfolding str_eq
starts_with [] s = true
starts_with (c ∷ p) [] = false
starts_with (c ∷ p) (d ∷ s) = str_eq (c ∷ []) (d ∷ []) && starts_with p s

pub starts_with-append : (p s : Str) → starts_with p (p ++ s) ≡ true
unfolding starts_with str_eq
starts_with-append [] s = refl
starts_with-append (c ∷ p) s = ground (arith, str_eq_refl (c ∷ []), starts_with-append p s)

-- A key outside a prefix is none of those inside.
pub starts_with-other : (p s k : Str) → starts_with p k ≡ false → str_eq (p ++ s) k ≡ false
starts_with-other p s k h = elim (Bool-cases (str_eq (p ++ s) k)) [
  | inl same ↦
      absurd
        (ground (arith, starts_with-append p s, ap (starts_with p) (str_eq_sound (p ++ s) k same)))
  | inr other ↦ other
]

pub record Redis (F R : Type 0) : Type 0 where
  pub get : R → Str → Option (Payload F)
  pub set : R → Str → Payload F → R
  -- `set(k, v, ex=t)`
  pub set_ex : R → Str → Payload F → ℕ → R
  -- `set(k, v, nx=True, ex=t)`
  pub set_nx_ex : R → Str → Payload F → ℕ → Bool × R
  pub delete : R → Str → R
  -- `keys(prefix + "*")`
  pub keys : R → Str → List Str
  pub incrbyfloat : R → Str → F → R
  pub incr : R → Str → R
  pub hset : R → Str → Str → Payload F → R
  pub hget : R → Str → Str → Option (Payload F)

-- The number that a counter command starts from: a missing key counts as 0.
abbrev pub stored_float : {F : Type 0} → Float F → Option (Payload F) → Option F
stored_float f none = some (f.lit 0 0)
stored_float f (some p) = read_float f p

abbrev pub stored_count : {F : Type 0} → Option (Payload F) → Option ℕ
stored_count none = some 0
stored_count (some (count n)) = some n
stored_count (some _) = none

-- The documented behaviour. A counter command is described where the key holds a number or nothing.
pub record RedisLaws {F R : Type 0} (f : Float F) (redis : Redis F R) : Type 0 where
  pub get-set :
      (r : R) (k j : Str) (v : Payload F)
      → redis.get (redis.set r k v) j ≡ (if str_eq k j then some v else redis.get r j)
  pub get-set_ex :
      (r : R) (k j : Str) (v : Payload F) (t : ℕ)
      → redis.get (redis.set_ex r k v t) j ≡ (if str_eq k j then some v else redis.get r j)
  pub set_nx_ex_lem :
      (r : R) (k : Str) (v : Payload F) (t : ℕ)
      → redis.set_nx_ex r k v t
        ≡ (if is_some (redis.get r k) then (false, r) else (true, redis.set_ex r k v t))
  pub get-delete :
      (r : R) (k j : Str)
      → redis.get (redis.delete r k) j ≡ (if str_eq k j then none else redis.get r j)
  pub member-keys :
      (r : R) (p k : Str) → member k (redis.keys r p) ≡ (starts_with p k && is_some (redis.get r k))
  pub get-incrbyfloat :
      (r : R) (k j : Str) (x y : F)
      → stored_float f (redis.get r k) ≡ some y
      → redis.get (redis.incrbyfloat r k x) j
        ≡ (if str_eq k j then some (decimal (f.add y x)) else redis.get r j)
  pub get-incr :
      (r : R) (k j : Str) (n : ℕ)
      → stored_count (redis.get r k) ≡ some n
      → redis.get (redis.incr r k) j ≡ (if str_eq k j then some (count (suc n)) else redis.get r j)
  pub hget-hset :
      (r : R) (h g k j : Str) (v : Payload F)
      → redis.hget (redis.hset r h k v) g j
        ≡ (if str_eq h g && str_eq k j then some v else redis.hget r g j)
