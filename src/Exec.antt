-- ===== src/Exec.antt =====
-- Methods that may raise, and methods that also change the world around them. What was written before
-- an exception stays written, so the world comes back beside the error too.
use hydra_engine.Base.{◌≡◌, refl, ◌⊎◌, inl, inr}

pub data Result {ℓ} (E A : Type ℓ) : Type ℓ where
  ok : A → Result E A
  err : E → Result E A

module _ {ℓ} {E A B : Type ℓ} where
  -- for methods that only read
  abbrev pub and_then : Result E A → (A → Result E B) → Result E B
  and_then (ok a) f = f a
  and_then (err e) f = err e

abbrev pub Action {ℓ} : Type ℓ → Type ℓ → Type ℓ → Type ℓ
Action E W A = W → Result E A × W

module _ {ℓ} {E W A : Type ℓ} where
  abbrev pub pure : A → Action E W A
  pure a w = (ok a, w)

  abbrev pub raise : E → Action E W A
  raise e w = (err e, w)

  abbrev pub lift : Result E A → Action E W A
  lift r w = (r, w)

  abbrev pub gets : (W → A) → Action E W A
  gets f w = (ok (f w), w)

  -- `try: m finally: cleanup`
  abbrev pub finally : Action E W A → (W → W) → Action E W A
  finally m cleanup w = let (r, w') = m w in (r, cleanup w')

module _ {ℓ} {E W A B : Type ℓ} where
  abbrev pub continue : Result E A → (A → Action E W B) → Action E W B
  continue (ok a) f w = f a w
  continue (err e) f w = (err e, w)

  infixl 10 ◌>>=◌ ◌>>◌
  abbrev pub ◌>>=◌ : Action E W A → (A → Action E W B) → Action E W B
  ◌>>=◌ m f w = let (r, w') = m w in continue r f w'

  abbrev pub ◌>>◌ : Action E W A → Action E W B → Action E W B
  m >> n = m >>= λ _. n

-- To split on the outcome of a call and keep the equation.
pub outcome_cases {ℓ} :
    {E A W : Type ℓ} (m : Result E A × W)
    → ((e : E) × (m ≡ (err e, m.1))) ⊎ ((a : A) × (m ≡ (ok a, m.1)))
outcome_cases (ok a, w) = inr (a, refl)
outcome_cases (err e, w) = inl (e, refl)

pub Result-cases {ℓ} :
    {E A : Type ℓ} (m : Result E A) → ((e : E) × (m ≡ err e)) ⊎ ((a : A) × (m ≡ ok a))
Result-cases (ok a) = inr (a, refl)
Result-cases (err e) = inl (e, refl)

pub ok-injective {ℓ} : {E A : Type ℓ} (a b : A) → ◌≡◌ {A = Result E A} (ok a) (ok b) → a ≡ b
ok-injective a b h = cc

pub and_then_congr {ℓ} :
    {E A B : Type ℓ} (m : Result E A) (f g : A → Result E B)
    → ((a : A) → f a ≡ g a)
    → and_then m f ≡ and_then m g
and_then_congr (ok a) f g h = h a
and_then_congr (err e) f g h = refl
