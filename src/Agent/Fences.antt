-- ===== src/Agent/Fences.antt =====
-- The block of JSON in an answer of the agent.
use hydra_engine.Base.{
  ℕ, ◌≡◌, refl, false, none, some, [], ◌∷◌, ◌++◌, ◌==◌, ==_iff, drop, length, arith,
}
use hydra_engine.Text.{Str, codes, str_eq}
use hydra_engine.Text.Split.{Free}
use hydra_engine.Redis.{starts_with, starts_with-append}
use hydra_engine.Agent.Answer.{partition, first_part, strip, json_block}

abbrev pub backtick : ℕ
backtick = b'`'

abbrev pub fence : Str
fence = codes "```"

abbrev pub json_fence : Str
json_fence = codes "```json"

drop-append : (s t : Str) → drop (length s) (s ++ t) ≡ t
drop-append [] t = refl
drop-append (c ∷ s) t = drop-append s t

module _ (c : ℕ) (sep : Str) where
  starts_with_free : (d : ℕ) (s : Str) → (d == c) ≡ false → starts_with (c ∷ sep) (d ∷ s) ≡ false
  unfolding starts_with str_eq
  starts_with_free d s h = ground (arith, ==_iff c d, ==_iff d c)

  starts_with-Free : (s : Str) → Free c s → starts_with (c ∷ sep) s ≡ false
  unfolding starts_with
  starts_with-Free [] h = refl
  starts_with-Free (d ∷ s) h = starts_with_free d s h.0

  partition-Free : (s : Str) → Free c s → partition (c ∷ sep) s ≡ none
  unfolding partition starts_with
  partition-Free [] h = refl
  partition-Free (d ∷ s) h = ground (arith, starts_with_free d s h.0, partition-Free s h.1)

  -- What has no first character of the separator can be left out of the search.
  partition-skip :
      (s t : Str) → Free c s → partition (c ∷ sep) t ≡ none → partition (c ∷ sep) (s ++ t) ≡ none
  unfolding partition
  partition-skip [] t h k = k
  partition-skip (d ∷ s) t h k =
      ground (arith, starts_with_free d (s ++ t) h.0, partition-skip s t h.1 k)

  partition-append :
      (s t : Str) → Free c s → partition (c ∷ sep) (s ++ ((c ∷ sep) ++ t)) ≡ some (s, t)
  unfolding partition
  partition-append [] t h = ground (arith, starts_with-append (c ∷ sep) t, drop-append (c ∷ sep) t)
  partition-append (d ∷ s) t h =
      ground (arith, starts_with_free d (s ++ ((c ∷ sep) ++ t)) h.0, partition-append s t h.1)

module _ (after : Str) (plain : Free backtick after) where
  partition-fence :
      starts_with (codes "json") after ≡ false → partition json_fence (fence ++ after) ≡ none
  unfolding partition starts_with str_eq
  partition-fence h = ground (
    arith,
    starts_with-Free backtick (codes "json") after plain,
    starts_with-Free backtick (codes "`json") after plain,
    partition-Free backtick (codes "``json") after plain,
  )

-- The block of JSON of an answer is the text between its fences without the white space around it, if
-- there is no other backtick and what follows the block does not start with "json".
pub json_block-fence :
    (before body after : Str)
    → Free backtick before
    → Free backtick body
    → Free backtick after
    → starts_with (codes "json") after ≡ false
    → json_block (before ++ (json_fence ++ (body ++ (fence ++ after)))) ≡ strip body
unfolding json_block first_part
json_block-fence before body after fb fm fa h = ground (
  arith,
  partition-append backtick (codes "``json") before (body ++ (fence ++ after)) fb,
  partition-skip backtick (codes "``json") body (fence ++ after) fm (partition-fence after fa h),
  partition-append backtick (codes "``") body after fm,
)
