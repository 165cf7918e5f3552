-- ===== src/Watchdog/Streaks.antt =====
-- The count against the failures in a row.
use hydra_engine.Base.{
  ℕ, ◌+◌, ◌%◌, ◌≡◌, refl, true, not, ◌&&◌, List, [], ◌∷◌, ◌++◌, ◌==◌, if◌then◌else◌, arith, All,
  Bool-cases, inl, inr,
}
use hydra_engine.Watchdog.{Probe, lambda_handler, is_healthy, after_probes}

-- The number of unhealthy runs since the last healthy one, given the number before.
unfoldable pub streak : ℕ → List Probe → ℕ
streak n [] = n
streak n (p ∷ ps) = streak (if is_healthy p then 0 else n + 1) ps

-- The calls of the kill switch and of the alert come back.
abbrev pub Returns : Probe → Type 0
Returns p = (p.kill_returns ≡ true) × (p.alert_returns ≡ true)

after_probes-streak :
    (count n : ℕ) (ps : List Probe)
    → All Returns ps
    → count ≡ n % 3
    → after_probes count ps ≡ streak n ps % 3
unfolding after_probes streak lambda_handler
after_probes-streak count n [] h e = e
after_probes-streak count n (p ∷ ps) h e = elim (Bool-cases (is_healthy p)) [
  | inl up ↦ rw up (after_probes-streak 0 0 ps h.1 refl)
  | inr down ↦
      let next =
        after_probes-streak (lambda_handler count p).stored (n + 1) ps h.1 (ground (arith, h.0)) in
      rw (next, down)
]

-- As long as the calls come back, the stored count is the number of failures in a row modulo 3.
pub stored-streak : (ps : List Probe) → All Returns ps → after_probes 0 ps ≡ streak 0 ps % 3
stored-streak ps h = after_probes-streak 0 0 ps h refl

streak-append :
    (n : ℕ) (ps : List Probe) (p : Probe)
    → streak n (ps ++ p ∷ []) ≡ (if is_healthy p then 0 else streak n ps + 1)
unfolding streak
streak-append n [] p = refl
streak-append n (q ∷ ps) p = streak-append (if is_healthy q then 0 else n + 1) ps p

-- The kill switch is called exactly in the runs that make the number of failures in a row a multiple of 3.
pub killed-streak :
    (ps : List Probe) (p : Probe)
    → All Returns ps
    → (lambda_handler (after_probes 0 ps) p).killed
      ≡ (not (is_healthy p) && (streak 0 (ps ++ p ∷ []) % 3 == 0))
unfolding lambda_handler
killed-streak ps p h = ground (arith, stored-streak ps h, streak-append 0 ps p)
