-- ===== src/Supplemental/Sentiment.antt =====
-- hydra/ml/sentiment.py, and the score of the poller in hydra/supplemental/sentiment.py. Times are
-- seconds; the score of a title is what the analyzer says.
use hydra_engine.Base.{
  ◌≡◌, refl, true, Option, none, some, List, [], ◌∷◌, ◌++◌, length, if◌then◌else◌, arith,
}
use hydra_engine.Text.{Str, codes, str_eq}
use hydra_engine.Float.{Float, zero_float}

pub record Item (F : Type 0) : Type 0 where
  pub score : F
  pub publish_time : F

-- An article of the poller: the time is none where it is missing or cannot be read.
pub record Article (F : Type 0) : Type 0 where
  pub score : F
  pub published_at : Option F

module _ {F : Type 0} (f : Float F) where
  -- `LAMBDA_MAP.get(market, 0.012)`
  unfoldable pub decay_rate : Str → F
  unfolding str_eq
  decay_rate market =
      if str_eq market (codes "crypto")
      then f.lit 29 3
      else if str_eq market (codes "us_stock")
      then f.lit 12 3
      else if str_eq market (codes "kr_stock")
      then f.lit 8 3
      else if str_eq market (codes "prediction")
      then f.lit 23 3
      else f.lit 12 3

  unfoldable pub compute_decay_weight : F → F → Str → F
  compute_decay_weight publish_time now market =
      let hours = f.div (f.sub now publish_time) (f.lit 3600 0) in
      if f.lt hours (zero_float f)
      then zero_float f
      else (let weight = f.exp (f.mul (f.neg (decay_rate market)) hours) in
          if f.le (f.lit 5 2) weight then weight else zero_float f)

  -- The loop of `aggregate_sentiment`: the sums of the weighted scores and of the weights.
  unfoldable pub weigh : F → Str → List (Item F) → F × F → F × F
  weigh now market [] sums = sums
  weigh now market (x ∷ xs) sums =
      let w = compute_decay_weight x.publish_time now market in
      weigh now market xs
        (if f.eq w (zero_float f) then sums else (f.add sums.0 (f.mul x.score w), f.add sums.1 w))

  unfoldable pub aggregate_sentiment : F → Str → List (Item F) → F
  aggregate_sentiment now market items =
      let (scores, weights) = weigh now market items (zero_float f, zero_float f) in
      if f.eq weights (zero_float f) then zero_float f else f.div scores weights

  -- The articles whose time is known.
  unfoldable pub timed : List (Article F) → List (Item F)
  timed [] = []
  timed (a ∷ rest) = elim a.published_at [
    | none ↦ timed rest
    | some t ↦ record { score = a.score; publish_time = t } ∷ timed rest
  ]

  unfoldable pub sum_scores : F → List (Article F) → F
  sum_scores acc [] = acc
  sum_scores acc (a ∷ rest) = sum_scores (f.add acc a.score) rest

  -- Where no time is known, the plain mean.
  abbrev pub plain_score : List (Article F) → F
  plain_score [] = zero_float f
  plain_score (a ∷ rest) =
      f.round 4 (f.div (sum_scores (zero_float f) (a ∷ rest)) (f.lit (length (a ∷ rest)) 0))

  unfoldable pub score_with_decay : F → Str → List (Article F) → F
  unfolding timed
  score_with_decay now market articles = elim (timed articles) [
    | [] ↦ plain_score articles
    | x ∷ xs ↦ f.round 4 (aggregate_sentiment now market (x ∷ xs))
  ]

  weigh-append :
      (now : F) (market : Str) (xs ys : List (Item F)) (sums : F × F)
      → weigh now market (xs ++ ys) sums ≡ weigh now market ys (weigh now market xs sums)
  unfolding weigh
  weigh-append now market [] ys sums = refl
  weigh-append now market (x ∷ xs) ys sums = weigh-append now market xs ys _

  weigh-skip :
      (now : F) (market : Str) (x : Item F) (ys : List (Item F)) (sums : F × F)
      → f.eq (compute_decay_weight x.publish_time now market) (zero_float f) ≡ true
      → weigh now market (x ∷ ys) sums ≡ weigh now market ys sums
  unfolding weigh
  weigh-skip now market x ys sums h = ground arith

  -- An item that has no weight, being from the future or too old, does not change the score.
  pub aggregate_sentiment-drop :
      (now : F) (market : Str) (xs ys : List (Item F)) (x : Item F)
      → f.eq (compute_decay_weight x.publish_time now market) (zero_float f) ≡ true
      → aggregate_sentiment now market (xs ++ x ∷ ys) ≡ aggregate_sentiment now market (xs ++ ys)
  unfolding aggregate_sentiment
  aggregate_sentiment-drop now market xs ys x h =
      let before = weigh now market xs (zero_float f, zero_float f) in
      rw
        (
          weigh-append now market xs (x ∷ ys) (zero_float f, zero_float f),
          weigh-append now market xs ys (zero_float f, zero_float f),
          weigh-skip now market x ys before h,
        )
        refl
