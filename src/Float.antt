-- ===== src/Float.antt =====
-- Python's `float`. Binary64 arithmetic is not a component of the repository, so the type of numbers
-- and the operations that the source applies to it are a parameter. `lit n k` is the literal n / 10^k.
pub mod Fixed
use hydra_engine.Base.{ℕ, ◌≡◌, Bool, true, false, Option, if◌then◌else◌}
use hydra_engine.Text.{Str}

pub record Float (F : Type 0) : Type 0 where
  pub lit : ℕ → ℕ → F
  pub neg : F → F
  pub add : F → F → F
  pub sub : F → F → F
  pub mul : F → F → F
  pub div : F → F → F
  pub lt : F → F → Bool
  pub le : F → F → Bool
  pub eq : F → F → Bool
  pub round : ℕ → F → F
  pub exp : F → F
  pub sqrt : F → F
  -- `x ** 2`; none is an OverflowError.
  pub square : F → Option F
  pub parse : Str → Option F

-- What the proofs need of the order: the comparisons of numbers other than NaN.
pub record IsOrdered {F : Type 0} (f : Float F) : Type 0 where
  pub le_refl : (a : F) → f.le a a ≡ true
  pub le_trans : (a b c : F) → f.le a b ≡ true → f.le b c ≡ true → f.le a c ≡ true
  pub le_of_lt : (a b : F) → f.lt a b ≡ true → f.le a b ≡ true
  pub le_of_not_lt : (a b : F) → f.lt a b ≡ false → f.le b a ≡ true
  pub not_lt_of_le : (a b : F) → f.le a b ≡ true → f.lt b a ≡ false

module _ {F : Type 0} (f : Float F) where
  abbrev pub zero_float : F
  zero_float = f.lit 0 0

  -- The built-in `max(a, b)`, which keeps `a` on a tie.
  abbrev pub max_float : F → F → F
  max_float a b = if f.lt a b then b else a

  -- The built-in `min(a, b)`, which keeps `a` on a tie.
  abbrev pub min_float : F → F → F
  min_float a b = if f.lt b a then b else a
