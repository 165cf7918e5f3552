-- ===== src/EventKeys.antt =====
-- The keys "hydra:indicator:{market}:{symbol}:{timeframe}" that the engines write, and the loops that
-- take them apart again at a cold start and in the pollers.
use mathlib.Core.List.{append_assoc}
use hydra_engine.Base.{ℕ, ◌≡◌, refl, sym, ap, ◌∙◌, Option, none, some, List, [], ◌∷◌, ◌++◌}
use hydra_engine.Text.{Str}
use hydra_engine.Text.Split.{split, join, Free, join-split, split-append, split-Free, split-cons}

abbrev pub colon : ℕ
colon = b':'

-- f"{prefix}:{market}:{symbol}:{timeframe}"
unfoldable pub event_key : Str → Str → Str → Str → Str
event_key prefix market symbol timeframe =
    prefix ++ (colon ∷ (market ++ (colon ∷ (symbol ++ (colon ∷ timeframe)))))

-- `parts[:-1]`
abbrev pub but_last : List Str → List Str
but_last [] = []
but_last (p ∷ []) = []
but_last (p ∷ (q ∷ ps)) = p ∷ but_last (q ∷ ps)

-- `parts[-1]`
abbrev pub last_of : Str → List Str → Str
last_of p [] = p
last_of p (q ∷ ps) = last_of q ps

-- `len(parts) < 5` is skipped; else `parts[2]`, `":".join(parts[3:-1])` and `parts[-1]`.
unfoldable pub parse_parts : List Str → Option (Str × Str × Str)
unfolding join
parse_parts (a ∷ (b ∷ (market ∷ (p ∷ (q ∷ ps))))) =
    some (market, join colon (but_last (p ∷ (q ∷ ps))), last_of p (q ∷ ps))
parse_parts _ = none

unfoldable pub parse_key : Str → Option (Str × Str × Str)
parse_key key = parse_parts (split colon key)

but_last-append : (ps : List Str) (t : Str) → but_last (ps ++ t ∷ []) ≡ ps
but_last-append [] t = refl
but_last-append (p ∷ []) t = refl
but_last-append (p ∷ (q ∷ ps)) t = ap (◌∷◌ p) (but_last-append (q ∷ ps) t)

last_of-append : (p : Str) (ps : List Str) (t : Str) → last_of p (ps ++ t ∷ []) ≡ t
last_of-append p [] t = refl
last_of-append p (q ∷ ps) t = last_of-append q ps t

-- Two parts in front, the market, at least one part of the symbol, and the timeframe.
parse_parts-append :
    (a b market p : Str) (rest : List Str) (t : Str)
    → parse_parts (a ∷ (b ∷ (market ∷ ((p ∷ rest) ++ t ∷ []))))
      ≡ some (market, join colon (p ∷ rest), t)
unfolding parse_parts
parse_parts-append a b market p [] t = refl
parse_parts-append a b market p (q ∷ ps) t =
    cc (but_last-append (p ∷ (q ∷ ps)) t, last_of-append q ps t)

split-event_key :
    (a b market symbol timeframe : Str)
    → Free colon a
    → Free colon b
    → Free colon market
    → Free colon timeframe
    → split colon (event_key (a ++ (colon ∷ b)) market symbol timeframe)
      ≡ a ∷ (b ∷ (market ∷ (split colon symbol ++ timeframe ∷ [])))
unfolding event_key
split-event_key a b market symbol timeframe fa fb fm ft =
    let tail = symbol ++ (colon ∷ timeframe) in
    rw (append_assoc a (colon ∷ b) (colon ∷ (market ++ (colon ∷ tail)))) (
      rw (split-append colon a (b ++ (colon ∷ (market ++ (colon ∷ tail)))), split-Free colon a fa)
        (rw (split-append colon b (market ++ (colon ∷ tail)), split-Free colon b fb)
          (rw (split-append colon market tail, split-Free colon market fm)
            (rw (split-append colon symbol timeframe, split-Free colon timeframe ft)))))

-- A key is taken apart into what it was made of, for a market and a timeframe with no colon and any
-- symbol, also one like "BTC/USDT:USDT" that has colons of its own.
pub parse_key-event_key :
    (a b market symbol timeframe : Str)
    → Free colon a
    → Free colon b
    → Free colon market
    → Free colon timeframe
    → parse_key (event_key (a ++ (colon ∷ b)) market symbol timeframe)
      ≡ some (market, symbol, timeframe)
unfolding parse_key
parse_key-event_key a b market symbol timeframe fa fb fm ft =
    let (p, ps, e) = split-cons colon symbol in
    rw (split-event_key a b market symbol timeframe fa fb fm ft) (
      rw e (
        parse_parts-append a b market p ps timeframe
        ∙ ap (λ s. some (market, s, timeframe))
            (ap (join colon) (sym e) ∙ join-split colon symbol)))
