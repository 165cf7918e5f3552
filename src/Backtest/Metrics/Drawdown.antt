-- ===== src/Backtest/Metrics/Drawdown.antt =====
-- The loop of the maximum drawdown against its definition.
use hydra_engine.Base.{
  ◌≡◌, refl, sym, ap, Bool, true, false, ◌⊎◌, inl, inr, List, [], ◌∷◌, if◌then◌else◌, arith,
  Bool-cases,
}
use mathlib.Core.Path.{subst}
use hydra_engine.Float.{Float, zero_float, IsOrdered}
use hydra_engine.Backtest.Broker.{EquityPoint}
use hydra_engine.Backtest.Metrics.{new_peak, drawdown, drawdown_loop, max_drawdown}

-- A number that is one of two by a test is one of the two.
either_of :
    {A B : Type 0} (b : Bool) (x y z : A) → (z ≡ (if b then x else y)) ⊎ B → (z ≡ y) ⊎ ((z ≡ x) ⊎ B)
either_of true x y z (inl e) = inr (inl e)
either_of false x y z (inl e) = inl e
either_of b x y z (inr h) = inr (inr h)

module _ {F : Type 0} (f : Float F) where
  -- What the loop compares with the worst so far.
  unfoldable pub drawdowns : F → List (EquityPoint F) → List F
  drawdowns peak [] = []
  drawdowns peak (p ∷ ps) =
      drawdown f (new_peak f peak p.equity) p.equity ∷ drawdowns (new_peak f peak p.equity) ps

  -- `x` is at least `y`, and at least every number of the list.
  abbrev pub AtLeast : F → List F → Type 0
  AtLeast x [] = Unit
  AtLeast x (y ∷ ys) = (f.le y x ≡ true) × AtLeast x ys

  -- The number is one of the list.
  abbrev pub OneOf : F → List F → Type 0
  OneOf x [] = ⊥
  OneOf x (y ∷ ys) = (x ≡ y) ⊎ OneOf x ys

  -- The highest of the numbers.
  abbrev pub IsHighest : F → List F → Type 0
  IsHighest top seen = AtLeast top seen × OneOf top seen

  -- How far a number lies below the top, in percent.
  abbrev pub below : F → F → F
  below top eq =
      if f.lt (f.lit 0 0) top then f.mul (f.div (f.sub top eq) top) (f.lit 100 0) else f.lit 0 0

  -- The drawdown of each point against the highest equity of the points up to it; `seen` are the
  -- equities before.
  pub data Drawdowns : List F → List (EquityPoint F) → List F → Type 0 where
    ended : {seen : List F} → Drawdowns seen [] []
    a_point :
        {seen : List F} {p : EquityPoint F} {ps : List (EquityPoint F)} {ds : List F} (top : F)
        → IsHighest top (p.equity ∷ seen)
        → Drawdowns (p.equity ∷ seen) ps ds
        → Drawdowns seen (p ∷ ps) (below top p.equity ∷ ds)

  module _ (o : IsOrdered f) where
    loop-ge :
        (peak worst : F) (ps : List (EquityPoint F))
        → f.le worst (drawdown_loop f peak worst ps) ≡ true
    unfolding drawdown_loop
    loop-ge peak worst [] = o.le_refl worst
    loop-ge peak worst (p ∷ ps) =
        let next = new_peak f peak p.equity in
        let dd = drawdown f next p.equity in
        ground (
          arith,
          loop-ge next dd ps,
          loop-ge next worst ps,
          o.le_of_lt worst dd,
          o.le_trans worst dd (drawdown_loop f next dd ps),
        )

    loop-AtLeast :
        (peak worst : F) (ps : List (EquityPoint F))
        → AtLeast (drawdown_loop f peak worst ps) (drawdowns peak ps)
    unfolding drawdown_loop drawdowns
    loop-AtLeast peak worst [] = tt
    loop-AtLeast peak worst (p ∷ ps) =
        let next = new_peak f peak p.equity in
        let dd = drawdown f next p.equity in
        let kept = if f.lt worst dd then dd else worst in
        (
          ground (
            arith,
            loop-ge next dd ps,
            loop-ge next worst ps,
            o.le_of_not_lt worst dd,
            o.le_trans dd worst (drawdown_loop f next worst ps),
          ),
          loop-AtLeast next kept ps,
        )

    loop-OneOf :
        (peak worst : F) (ps : List (EquityPoint F))
        → OneOf (drawdown_loop f peak worst ps) (worst ∷ drawdowns peak ps)
    unfolding drawdown_loop drawdowns
    loop-OneOf peak worst [] = inl refl
    loop-OneOf peak worst (p ∷ ps) =
        let next = new_peak f peak p.equity in
        let dd = drawdown f next p.equity in
        let kept = if f.lt worst dd then dd else worst in
        either_of (f.lt worst dd) dd worst (drawdown_loop f next kept ps) (loop-OneOf next kept ps)

    -- The running maximum of the loop is the highest equity so far.
    AtLeast-raise : (x y : F) (seen : List F) → f.le x y ≡ true → AtLeast x seen → AtLeast y seen
    AtLeast-raise x y [] h all = tt
    AtLeast-raise x y (z ∷ seen) h (le, all) =
        (ground (arith, o.le_trans z x y), AtLeast-raise x y seen h all)

    new_peak-IsHighest :
        (peak eq : F) (seen : List F)
        → AtLeast peak seen
        → (OneOf peak seen) ⊎ (peak ≡ eq)
        → IsHighest (new_peak f peak eq) (eq ∷ seen)
    unfolding new_peak
    new_peak-IsHighest peak eq seen all one = elim (Bool-cases (f.lt peak eq)) [
      | inl up ↦
          subst (λ top. IsHighest top (eq ∷ seen)) (sym (ap (λ b. if b then eq else peak) up))
            ((o.le_refl eq, AtLeast-raise peak eq seen (o.le_of_lt peak eq up) all), inl refl)
      | inr kept ↦
          subst (λ top. IsHighest top (eq ∷ seen)) (sym (ap (λ b. if b then eq else peak) kept))
            (
              (o.le_of_not_lt peak eq kept, all),
              elim one [ inl before ↦ inr before | inr same ↦ inl same ],
            )
    ]

    -- A point, after the highest equity before it, or at the start.
    drawdowns-Drawdowns :
        (peak : F) (seen : List F) (ps : List (EquityPoint F))
        → AtLeast peak seen
        → OneOf peak seen
        → Drawdowns seen ps (drawdowns peak ps)
    unfolding drawdowns drawdown
    drawdowns-Drawdowns peak seen [] all one = ended
    drawdowns-Drawdowns peak seen (p ∷ ps) all one =
        let highest = new_peak-IsHighest peak p.equity seen all (inl one) in
        a_point (new_peak f peak p.equity) highest
          (drawdowns-Drawdowns (new_peak f peak p.equity) (p.equity ∷ seen) ps highest.0 highest.1)

    drawdowns-start :
        (p : EquityPoint F) (ps : List (EquityPoint F))
        → Drawdowns [] (p ∷ ps) (drawdowns p.equity (p ∷ ps))
    unfolding drawdowns drawdown
    drawdowns-start p ps =
        let highest = new_peak-IsHighest p.equity p.equity [] tt (inr refl) in
        a_point (new_peak f p.equity p.equity) highest (
          drawdowns-Drawdowns (new_peak f p.equity p.equity) (p.equity ∷ []) ps highest.0 highest.1)

    -- Every point of a curve has a drawdown: what its equity lies below the highest equity up to it, in
    -- percent of that, or 0 if that is not positive. The maximum drawdown of the curve is 0 or one of
    -- these, and it is at least 0 and at least each of them.
    pub max_drawdown_exact :
        (p : EquityPoint F) (ps : List (EquityPoint F))
        → (ds : List F) × Drawdowns [] (p ∷ ps) ds
          × AtLeast (max_drawdown f (p ∷ ps)) (f.lit 0 0 ∷ ds)
          × OneOf (max_drawdown f (p ∷ ps)) (f.lit 0 0 ∷ ds)
    unfolding max_drawdown
    max_drawdown_exact p ps = (
      drawdowns p.equity (p ∷ ps),
      drawdowns-start p ps,
      (loop-ge p.equity (zero_float f) (p ∷ ps), loop-AtLeast p.equity (zero_float f) (p ∷ ps)),
      loop-OneOf p.equity (zero_float f) (p ∷ ps),
    )
