-- ===== src/Api/Feeds.antt =====
-- What the routes serve of what the pollers cached.
use hydra_engine.Base.{
  ℕ, ◌≡◌, refl, ap, true, Option, some, List, [], ◌∷◌, ◌++◌, length, if◌then◌else◌, arith,
  Bool-cases, inl, inr,
}
use hydra_engine.Text.{Str, codes, str_eq, str_eq_iff, str_eq_refl, str_eq_sound, member}
use hydra_engine.Float.{Float}
use hydra_engine.Json.{Json, int, num, str, arr, obj, field, end, dumped}
use hydra_engine.Redis.{Redis, RedisLaws}
use hydra_engine.Core.Orders.{Venue}
use hydra_engine.Core.KillSwitch.{Notice}
use hydra_engine.Storage.Contract.{OhlcvStore}
use hydra_engine.Supplemental.Sentiment.{score_with_decay}
use hydra_engine.Supplemental.News.{
  fetch_news, sentiment_json, poll_news, fetch_events, poll_events,
}
use hydra_engine.Api.Types.{get_events, get_sentiment, value, reply, App, Moment, Site}
use hydra_engine.Api.Cached
use hydra_engine.Api.Guard.{handle, key_accepted, auth_guard}
use hydra_engine.Api.Reading.{auth_guard-handle}

abbrev sentiment_key : Str → Str
sentiment_key symbol = codes "hydra:sentiment:" ++ symbol

same_sentiment_key : (s t : Str) → str_eq (sentiment_key s) (sentiment_key t) ≡ str_eq s t
unfolding str_eq
same_sentiment_key s t = refl

module _ {F R : Type 0} (f : Float F) (redis : Redis F R) (laws : RedisLaws f redis)
    (polarity : Json F → F) (parse_time : Json F → Option F) (get : Str → Option (Json F)) (now : F)
    (ts : ℕ) where
  abbrev news_of : Str → Json F
  news_of symbol = sentiment_json f now ts (fetch_news f polarity parse_time (get symbol))

  get-poll_news :
      (symbol : Str) (ss : List Str) (r : R)
      → redis.get (poll_news f polarity parse_time redis get now ts ss r) (sentiment_key symbol) ≡ (
          if member symbol ss
          then some (dumped (news_of symbol))
          else redis.get r (sentiment_key symbol))
  unfolding poll_news
  get-poll_news symbol [] r = refl
  get-poll_news symbol (s ∷ ss) r =
      let stored = redis.set r (sentiment_key s) (dumped (news_of s)) in
      elim (Bool-cases (str_eq symbol s)) [
        | inl same ↦
            let e = str_eq_sound symbol s same in
            ground (
              arith,
              get-poll_news symbol ss stored,
              laws.get-set r (sentiment_key s) (sentiment_key symbol) (dumped (news_of s)),
              same_sentiment_key s symbol,
              str_eq_iff s symbol,
              ap news_of e,
            )
        | inr other ↦ ground (
          arith,
          get-poll_news symbol ss stored,
          laws.get-set r (sentiment_key s) (sentiment_key symbol) (dumped (news_of s)),
          same_sentiment_key s symbol,
          str_eq_iff s symbol,
          str_eq_iff symbol s,
        )
      ]

module _ {F R X T S : Type 0} (f : Float F) (redis : Redis F R) (laws : RedisLaws f redis)
    (venue : Venue F X) (send : Notice F → T → T) (store : OhlcvStore F S) (app : App F) where
  -- A round of the news poller can be read over HTTP: for each symbol of the round, the answer to a request
  -- with the key is the symbol, the score of its articles, how many there are, and the time.
  pub served_sentiment :
      (polarity : Json F → F) (parse_time : Json F → Option F) (get : Str → Option (Json F))
      (now : F) (ts : ℕ) (symbols : List Str) (symbol : Str) (r : R) (m : Moment F)
      (header : Option Str) (s : Site R X T S)
      → member symbol symbols ≡ true
      → s.started ≡ true
      → key_accepted app header ≡ true
      → s.world.redis ≡ poll_news f polarity parse_time redis get now ts symbols r
      → auth_guard f redis venue send store app m header (get_sentiment symbol) s ≡ (
        (let articles = fetch_news f polarity parse_time (get symbol) in
            reply 200 (
              value (
                obj (
                  field (codes "symbol") (str symbol) (
                    field (codes "score") (num (score_with_decay f now (codes "crypto") articles)) (
                      field
                        (codes "article_count")
                        (int (length articles))
                        (field (codes "ts") (int ts) end))))))),
        s,
      )
  unfolding handle Cached.get_sentiment Cached.spread_body Cached.spread Cached.set_field
      sentiment_json str_eq
  served_sentiment polarity parse_time get now ts symbols symbol r m header s known on key polled =
      ground (
        arith,
        auth_guard-handle f redis venue send store app m header (get_sentiment symbol) s,
        get-poll_news f redis laws polarity parse_time get now ts symbol symbols r,
      )

  -- So can a round of the event poller: the answer is the list of events that it made.
  pub served_events :
      (api_key : Str) (body : Option (Json F)) (r : R) (m : Moment F) (header : Option Str)
      (s : Site R X T S)
      → s.started ≡ true
      → key_accepted app header ≡ true
      → s.world.redis ≡ poll_events f redis api_key body r
      → auth_guard f redis venue send store app m header get_events s
        ≡ (reply 200 (value (arr (fetch_events f api_key body))), s)
  unfolding handle Cached.get_events poll_events
  served_events api_key body r m header s on key polled = ground (
    arith,
    auth_guard-handle f redis venue send store app m header get_events s,
    str_eq_refl (codes "hydra:events:upcoming"),
    laws.get-set r (codes "hydra:events:upcoming") (codes "hydra:events:upcoming")
        (dumped (arr (fetch_events f api_key body))),
  )
