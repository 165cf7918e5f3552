-- ===== src/Text/Split.antt =====
-- `s.split(sep)` and `sep.join(parts)` for a separator of one character.
use hydra_engine.Base.{
  ℕ, ◌≡◌, refl, ap, inl, inr, Bool-cases, List, [], ◌∷◌, ◌++◌, arith, ◌==◌, ==_iff, if◌then◌else◌,
  false,
}

-- A character in front of the first part.
abbrev pub glue : ℕ → List (List ℕ) → List (List ℕ)
glue c [] = (c ∷ []) ∷ []
glue c (p ∷ ps) = (c ∷ p) ∷ ps

unfoldable pub split : ℕ → List ℕ → List (List ℕ)
split sep [] = [] ∷ []
split sep (c ∷ s) = let rest = split sep s in if c == sep then [] ∷ rest else glue c rest

unfoldable pub join : ℕ → List (List ℕ) → List ℕ
join sep [] = []
join sep (p ∷ []) = p
join sep (p ∷ (q ∷ ps)) = p ++ (sep ∷ join sep (q ∷ ps))

-- The separator does not occur.
abbrev pub Free : ℕ → List ℕ → Type 0
Free sep [] = Unit
Free sep (c ∷ s) = ((c == sep) ≡ false) × Free sep s

module _ (sep : ℕ) where
  join-glue : (c : ℕ) (ps : List (List ℕ)) → join sep (glue c ps) ≡ c ∷ join sep ps
  unfolding join
  join-glue c [] = refl
  join-glue c (p ∷ []) = refl
  join-glue c (p ∷ (q ∷ ps)) = refl

  pub split-cons : (s : List ℕ) → (p : List ℕ) × (ps : List (List ℕ)) × (split sep s ≡ p ∷ ps)
  unfolding split
  split-cons [] = ([], [], refl)
  split-cons (c ∷ s) = elim (Bool-cases (c == sep)) [
    | inl e ↦ ([], split sep s, rw e)
    | inr e ↦ let (p, ps, q) = split-cons s in (c ∷ p, ps, rw e (rw q))
  ]

  -- Joining the parts of a split gives the text back.
  pub join-split : (s : List ℕ) → join sep (split sep s) ≡ s
  unfolding split join
  join-split [] = refl
  join-split (c ∷ s) = elim (Bool-cases (c == sep)) [
    | inl e ↦
        let (p, ps, q) = split-cons s in rw e (ground (arith, q, join-split s, (==_iff c sep).0 e))
    | inr e ↦ rw e (rw (join-glue c (split sep s)) (ap (◌∷◌ c) (join-split s)))
  ]

  glue-append :
      (c : ℕ) (ps qs : List (List ℕ)) (p : List ℕ) (rest : List (List ℕ))
      → ps ≡ p ∷ rest
      → glue c (ps ++ qs) ≡ glue c ps ++ qs
  glue-append c ps qs p rest e = rw e

  -- The parts before a separator, then those after it.
  pub split-append : (s t : List ℕ) → split sep (s ++ (sep ∷ t)) ≡ split sep s ++ split sep t
  unfolding split
  split-append [] t = ground arith
  split-append (c ∷ s) t = elim (Bool-cases (c == sep)) [
    | inl e ↦ rw e (ap (◌∷◌ []) (split-append s t))
    | inr e ↦
        let (p, ps, q) = split-cons s in
        rw e (rw (split-append s t) (glue-append c (split sep s) (split sep t) p ps q))
  ]

  pub split-Free : (s : List ℕ) → Free sep s → split sep s ≡ s ∷ []
  unfolding split
  split-Free [] h = refl
  split-Free (c ∷ s) h = rw h.0 (rw (split-Free s h.1))
