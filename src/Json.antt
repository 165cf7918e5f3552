-- ===== src/Json.antt =====
-- JSON values, and the texts that the program keeps in Redis. A text that `json.dumps` wrote is kept
-- as the value it denotes, and a text that `str` wrote of a number as the number, so `json.loads` and
-- `float` read back what was written.
use hydra_engine.Base.{ℕ, Bool, true, false, Option, none, some, [], if◌then◌else◌, length, ltb}
use hydra_engine.Text.{Str, str_eq}
use hydra_engine.Float.{Float}

mutual
  pub data Json (F : Type 0) : Type 0 where
    null : Json F
    bool : Bool → Json F
    int : ℕ → Json F
    num : F → Json F
    str : Str → Json F
    arr : Items F → Json F
    obj : Fields F → Json F

  pub data Items (F : Type 0) : Type 0 where
    nil : Items F
    cons : Json F → Items F → Items F

  pub data Fields (F : Type 0) : Type 0 where
    end : Fields F
    field : Str → Json F → Fields F → Fields F

-- A value of a Redis string key.
pub data Payload (F : Type 0) : Type 0 where
  text : Str → Payload F
  count : ℕ → Payload F
  decimal : F → Payload F
  dumped : Json F → Payload F

module _ {F : Type 0} where
  -- `d.get(k)` of a decoded object
  unfoldable pub member? : Str → Fields F → Option (Json F)
  unfolding str_eq
  member? k end = none
  member? k (field j v rest) = if str_eq j k then some v else member? k rest

  -- `json.loads(raw)`; a text that `json.dumps` did not write is taken as malformed
  abbrev pub loads : Payload F → Option (Json F)
  loads (dumped j) = some j
  loads (count n) = some (int n)
  loads (decimal x) = some (num x)
  loads (text s) = none

  -- `bool(raw)`: only the empty text is false
  abbrev pub truthy : Payload F → Bool
  truthy (text []) = false
  truthy _ = true

  -- The value that `if raw:` lets through.
  abbrev pub present : Option (Payload F) → Option (Payload F)
  present none = none
  present (some p) = if truthy p then some p else none

  -- `float(raw)`
  abbrev pub read_float : Float F → Payload F → Option F
  read_float f (text s) = f.parse s
  read_float f (count n) = some (f.lit n 0)
  read_float f (decimal x) = some x
  read_float f (dumped (num x)) = some x
  read_float f (dumped (int n)) = some (f.lit n 0)
  read_float f (dumped _) = none

  -- The truth of a decoded value.
  abbrev pub truth : Float F → Json F → Bool
  truth f null = false
  truth f (bool b) = b
  truth f (int n) = ltb 0 n
  truth f (num x) = if f.eq x (f.lit 0 0) then false else true
  truth f (str s) = ltb 0 (length s)
  truth f (arr nil) = false
  truth f (arr (cons x xs)) = true
  truth f (obj end) = false
  truth f (obj _) = true
