-- ===== src/Supplemental/OrderBook.antt =====
-- hydra/supplemental/orderbook.py: the symbols to poll, and a quote of an order book.
use hydra_engine.Base.{
  ℕ, ◌≡◌, refl, Bool, true, false, ◌&&◌, ◌||◌, Option, none, some, List, [], ◌∷◌, ◌++◌, take,
  if◌then◌else◌, arith, Bool-cases, Option-cases, inl, inr,
}
use mathlib.Core.Path.{subst}
use hydra_engine.Text.{Str, str_eq, str_eq_iff}
use hydra_engine.Float.{Float, zero_float}
use hydra_engine.EventKeys.{parse_key}
use hydra_engine.Text.{codes}
use hydra_engine.Json.{Json, num, int, arr, obj, Items, nil, cons, field, end, dumped}
use hydra_engine.Redis.{Redis}

abbrev pub Pair : Type 0
Pair = Str × Str

abbrev same_pair : Pair → Pair → Bool
same_pair (a, b) (c, d) = str_eq a c && str_eq b d

-- `(market, symbol) in seen`
unfoldable pub has_pair : Pair → List Pair → Bool
has_pair p [] = false
has_pair p (q ∷ qs) = same_pair p q || has_pair p qs

-- The loop of `_get_active_symbols` over the keys that are left; `seen` and `result` hold the same.
unfoldable pub collect : List Str → List Pair → List Pair
unfolding has_pair
collect [] seen = seen
collect (k ∷ ks) seen = elim (parse_key k) [
  | none ↦ collect ks seen
  | some (market, symbol, timeframe) ↦
      let p : Pair = (market, symbol) in
      collect ks (if has_pair p seen then seen else seen ++ p ∷ [])
]

unfoldable pub get_active_symbols : List Str → List Pair
unfolding collect
get_active_symbols keys = collect keys []

-- An order book: price levels of price, size and perhaps more.
pub record Book (F : Type 0) : Type 0 where
  pub bids : List (List F)
  pub asks : List (List F)

pub record Quote (F : Type 0) : Type 0 where
  pub bid : F
  pub ask : F
  pub spread_pct : F
  pub bids : List (List F)
  pub asks : List (List F)
  pub ts : ℕ

-- `levels[0][0]`, none where there is no level or the level is empty
unfoldable pub best : {F : Type 0} → List (List F) → Option F
best [] = none
best ([] ∷ levels) = none
best ((price ∷ rest) ∷ levels) = some price

module _ {F : Type 0} (f : Float F) where
  abbrev quote_of : ℕ → Book F → Option F → Option F → Option (Quote F)
  quote_of now ob none ask = none
  quote_of now ob (some bid) none = none
  quote_of now ob (some bid) (some ask) =
      if f.eq ask (zero_float f)
      then none
      else some (record {
        bid = bid;
        ask = ask;
        spread_pct = f.round 4 (f.mul (f.div (f.sub ask bid) ask) (f.lit 100 0));
        bids = take 5 ob.bids;
        asks = take 5 ob.asks;
        ts = now;
      })

  -- `_fetch_one`, where `answer` is the book of the exchange, and none if there is no such exchange or
  -- it raised; a division by zero raises too. All exceptions give None.
  unfoldable pub fetch_one : ℕ → Option (Book F) → Option (Quote F)
  unfolding best
  fetch_one now none = none
  fetch_one now (some ob) = quote_of now ob (best ob.bids) (best ob.asks)

module _ {F : Type 0} where
  abbrev pub level_json : List F → Items F
  level_json [] = nil
  level_json (x ∷ xs) = cons (num x) (level_json xs)

  abbrev pub levels_json : List (List F) → Items F
  levels_json [] = nil
  levels_json (l ∷ ls) = cons (arr (level_json l)) (levels_json ls)

  unfoldable pub quote_json : Quote F → Json F
  quote_json q = obj (
      field (codes "bid") (num q.bid) (
        field (codes "ask") (num q.ask) (
          field (codes "spread_pct") (num q.spread_pct) (
            field (codes "bids") (arr (levels_json q.bids)) (
              field (codes "asks") (arr (levels_json q.asks))
                (field (codes "ts") (int q.ts) end))))))

abbrev pub book_key : Pair → Str
book_key (market, symbol) = codes "hydra:orderbook:" ++ (market ++ (codes ":" ++ symbol))

module _ {F R : Type 0} (f : Float F) (redis : Redis F R) (fetch : Pair → Option (Book F)) where
  -- `if data: …set(key, …)`
  abbrev pub store_quote : Pair → Option (Quote F) → R → R
  store_quote p none r = r
  store_quote p (some q) r = redis.set r (book_key p) (dumped (quote_json q))

  -- The loop of one round of `run`; `now` is what the clock says.
  unfoldable pub poll : ℕ → List Pair → R → R
  poll now [] r = r
  poll now (p ∷ ps) r = poll now ps (store_quote p (fetch_one f now (fetch p)) r)

  unfoldable pub poll_round : ℕ → R → R
  unfolding poll
  poll_round now r = poll now (get_active_symbols (redis.keys r (codes "hydra:indicator:"))) r

-- No pair twice.
abbrev pub NoRepeat : List Pair → Type 0
NoRepeat [] = Unit
NoRepeat (p ∷ ps) = (has_pair p ps ≡ false) × NoRepeat ps

-- Some key is of that pair.
unfoldable pub named : Pair → List Str → Bool
named p [] = false
named p (k ∷ ks) = elim (parse_key k) [
  | none ↦ named p ks
  | some (market, symbol, timeframe) ↦ same_pair p (market, symbol) || named p ks
]

has_pair-append :
    (p : Pair) (ps qs : List Pair) → has_pair p (ps ++ qs) ≡ (has_pair p ps || has_pair p qs)
unfolding has_pair
has_pair-append p [] qs = refl
has_pair-append p (q ∷ ps) qs = ground (arith, has_pair-append p ps qs)

same_pair_sym : (p q : Pair) → same_pair p q ≡ same_pair q p
same_pair_sym (a, b) (c, d) =
    ground (arith, str_eq_iff a c, str_eq_iff c a, str_eq_iff b d, str_eq_iff d b)

NoRepeat-append :
    (ps : List Pair) (p : Pair) → has_pair p ps ≡ false → NoRepeat ps → NoRepeat (ps ++ p ∷ [])
unfolding has_pair
NoRepeat-append [] p h n = (refl, tt)
NoRepeat-append (q ∷ ps) p h n = (
  ground (arith, has_pair-append q ps (p ∷ []), same_pair_sym p q),
  NoRepeat-append ps p (ground arith) n.1,
)

same_pair_trans :
    (p q : Pair) (seen : List Pair) → same_pair p q ≡ true → has_pair p seen ≡ has_pair q seen
same_pair_trans (a, b) (c, d) seen h = ground (arith, str_eq_iff a c, str_eq_iff b d)

has_pair-collect :
    (p : Pair) (ks : List Str) (seen : List Pair)
    → has_pair p (collect ks seen) ≡ (has_pair p seen || named p ks)
unfolding collect named has_pair
has_pair-collect p [] seen = ground arith
has_pair-collect p (k ∷ ks) seen = elim (Option-cases (parse_key k)) [
  | inl skip ↦ ground (arith, has_pair-collect p ks seen)
  | inr ((market, symbol, timeframe), e) ↦
      let q : Pair = (market, symbol) in
      ground (
        arith,
        has_pair-collect p ks seen,
        has_pair-collect p ks (seen ++ q ∷ []),
        has_pair-append p seen (q ∷ []),
        same_pair_trans p q seen,
      )
]

-- The list after a pair was met.
abbrev after_pair : Pair → List Pair → List Pair
after_pair p seen = if has_pair p seen then seen else seen ++ p ∷ []

NoRepeat-after_pair : (p : Pair) (seen : List Pair) → NoRepeat seen → NoRepeat (after_pair p seen)
NoRepeat-after_pair p seen n = elim (Bool-cases (has_pair p seen)) [
  | inl old ↦ rw old n
  | inr new ↦ rw new (NoRepeat-append seen p new n)
]

NoRepeat-collect : (ks : List Str) (seen : List Pair) → NoRepeat seen → NoRepeat (collect ks seen)
unfolding collect
NoRepeat-collect [] seen n = n
NoRepeat-collect (k ∷ ks) seen n = elim (Option-cases (parse_key k)) [
  | inl skip ↦
      let step : collect ks seen ≡ collect (k ∷ ks) seen = ground arith in
      subst NoRepeat step (NoRepeat-collect ks seen n)
  | inr ((market, symbol, timeframe), e) ↦
      let next = after_pair (market, symbol) seen in
      let step : collect ks next ≡ collect (k ∷ ks) seen = ground arith in
      subst NoRepeat step (NoRepeat-collect ks next (NoRepeat-after_pair (market, symbol) seen n))
]

-- The symbols to poll are exactly the pairs that some key of an indicator names, and none comes twice.
pub get_active_symbols_lem :
    (keys : List Str) (p : Pair)
    → NoRepeat (get_active_symbols keys) × (has_pair p (get_active_symbols keys) ≡ named p keys)
unfolding get_active_symbols has_pair
get_active_symbols_lem keys p = (NoRepeat-collect keys [] tt, has_pair-collect p keys [])
