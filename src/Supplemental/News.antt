-- ===== src/Supplemental/News.antt =====
-- hydra/supplemental/sentiment.py and events.py: the rounds of the pollers of news and of events. The HTTP
-- requests, the analyzer of titles, which are text, and the parser of dates are parameters.
use hydra_engine.Base.{ℕ, Option, none, some, List, [], ◌∷◌, ◌++◌, length, if◌then◌else◌, get_or}
use hydra_engine.Text.{Str, codes, str_eq, member}
use hydra_engine.Text.Split.{split}
use hydra_engine.Float.{Float}
use hydra_engine.Json.{
  truth, Json, null, int, num, str, arr, obj, Items, nil, cons, Fields, field, end, member?, dumped,
}
use hydra_engine.Redis.{Redis}
use hydra_engine.Exec.{Result, ok, err, and_then}
use hydra_engine.Core.Types.{Error, value_error}
use hydra_engine.Core.OrderQueue.{fields_of}
use hydra_engine.EventKeys.{parse_key}
use hydra_engine.Supplemental.Sentiment.{Article, score_with_decay}

abbrev slash : ℕ
slash = b'/'

-- `split[0]`
abbrev head_of : List Str → Str
head_of [] = []
head_of (p ∷ ps) = p

-- The symbol before the slash, or all of it where there is none.
unfoldable pub base_of : Str → Str
unfolding split
base_of symbol = head_of (split slash symbol)

abbrev pub add_base : Option (Str × Str × Str) → List Str → List Str
add_base none bases = bases
add_base (some (market, symbol, timeframe)) bases =
    if member (base_of symbol) bases then bases else bases ++ base_of symbol ∷ []

-- The set of `_get_active_symbols`, in the order in which its members are added.
unfoldable pub active_bases : List Str → List Str → List Str
unfolding base_of
active_bases [] bases = bases
active_bases (k ∷ ks) bases = active_bases ks (add_base (parse_key k) bases)

module _ {F : Type 0} where
  -- `d.get(k, default)`
  abbrev get_field : Str → Json F → Fields F → Json F
  get_field k default d = get_or (member? k d) default

  -- What the loops of the pollers need of an answer; another shape raises.
  abbrev pub items_of : Json F → Result (Error F) (Items F)
  items_of (arr xs) = ok xs
  items_of _ = err value_error

module _ {F : Type 0} (f : Float F) where
  unfoldable pub sentiment_json : F → ℕ → List (Article F) → Json F
  sentiment_json now ts articles = obj (
      field (codes "score") (num (score_with_decay f now (codes "crypto") articles))
        (field (codes "article_count") (int (length articles)) (field (codes "ts") (int ts) end)))

module _ {F : Type 0} (f : Float F) (polarity : Json F → F) (parse_time : Json F → Option F) where
  -- `raw_ts` is parsed if it is there and true.
  abbrev published : Option (Json F) → Option F
  published none = none
  published (some raw) = if truth f raw then parse_time raw else none

  abbrev add_article : Fields F → Option (Json F) → List (Article F) → List (Article F)
  add_article item none rest = rest
  add_article item (some title) rest =
      if truth f title
      then record {
        score = polarity title;
        published_at = published (member? (codes "published_at") item);
      }
        ∷ rest
      else rest

  -- The articles with a title.
  unfoldable pub articles_of : Items F → Result (Error F) (List (Article F))
  unfolding member?
  articles_of nil = ok []
  articles_of (cons x xs) = and_then (fields_of x) λ item.
      and_then (articles_of xs) λ rest. ok (add_article item (member? (codes "title") item) rest)

  abbrev or_empty : {A : Type 0} → Result (Error F) (List A) → List A
  or_empty (ok xs) = xs
  or_empty (err e) = []

  -- `_fetch_news`, by the body that the request returned; none is an exception.
  unfoldable pub fetch_news : Option (Json F) → List (Article F)
  unfolding articles_of
  fetch_news none = []
  fetch_news (some body) = or_empty (
      and_then (fields_of body)
        λ d. and_then (items_of (get_field (codes "results") (arr nil) d)) articles_of)

  -- One round of `run` over the symbols. `get` is the request for a symbol; the times are those that the
  -- clock says in the round.
  unfoldable pub poll_news :
      {R : Type 0} → Redis F R → (Str → Option (Json F)) → F → ℕ → List Str → R → R
  unfolding fetch_news sentiment_json
  poll_news redis get now ts [] r = r
  poll_news redis get now ts (s ∷ ss) r = poll_news redis get now ts ss (
      redis.set r (codes "hydra:sentiment:" ++ s)
        (dumped (sentiment_json f now ts (fetch_news (get s)))))

module _ {F : Type 0} (f : Float F) where
  -- `coins[0].get("symbol", "") if coins else ""`, where `coins` is `item.get("coins") or []`
  abbrev symbol_of : Json F → Result (Error F) (Json F)
  symbol_of (arr (cons x xs)) =
      and_then (fields_of x) λ coin. ok (get_field (codes "symbol") (str []) coin)
  symbol_of coins = if truth f coins then err value_error else ok (str [])

  abbrev event_json : Fields F → Json F → Json F
  event_json item symbol = obj (
      field (codes "title") (get_field (codes "title") (str []) item) (
        field (codes "symbol") symbol (
          field (codes "date_event") (get_field (codes "date_event") (str []) item)
            (field (codes "source") (str (codes "coinmarketcal")) end))))

  unfoldable pub calendar_of : Items F → Result (Error F) (Items F)
  calendar_of nil = ok nil
  calendar_of (cons x xs) = and_then (fields_of x) λ item.
      and_then (symbol_of (get_field (codes "coins") null item))
        λ symbol. and_then (calendar_of xs) λ rest. ok (cons (event_json item symbol) rest)

  abbrev or_nil : Result (Error F) (Items F) → Items F
  or_nil (ok xs) = xs
  or_nil (err e) = nil

  -- `_fetch`
  unfoldable pub fetch_events : Str → Option (Json F) → Items F
  unfolding calendar_of str_eq
  fetch_events api_key none = nil
  fetch_events api_key (some body) =
      if str_eq api_key []
      then nil
      else or_nil (
          and_then (fields_of body)
            λ d. and_then (items_of (get_field (codes "body") (arr nil) d)) calendar_of)

  -- One round of `run`.
  unfoldable pub poll_events : {R : Type 0} → Redis F R → Str → Option (Json F) → R → R
  unfolding fetch_events
  poll_events redis api_key body r =
      redis.set r (codes "hydra:events:upcoming") (dumped (arr (fetch_events api_key body)))
