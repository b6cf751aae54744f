-- ===== src/Search/Endpoint.antt =====
-- The endpoints of apps/api/src/ozzb2b_api/routes/search.py. The time that a search took is left out of its
-- event, and an item is the provider that `to_summary` shows.
use ozzb2b.Shared.{
  ℕ, Bool, ◌&&◌, Option, none, List, map, leb, length, Text, codes, Exec, Result, ◌>>=◌, ◌>>◌, pure,
  guard, lift, modify, nat_eq,
}
use ozzb2b.Errors.{Error, error, http}
use ozzb2b.RateLimit.{Redis, LimitSettings, enforce_rate_limit}
use ozzb2b.Events.{EventEmitter, Published, emit}
use ozzb2b.Search.{SearchQuery, SearchResult}
use ozzb2b.Search.Rerank.{FoundProvider, hydrate_providers}
use ozzb2b.Search.Suggest.{SearchSuggestion, SuggestHit, suggest}

pub record SearchResponse : Type 0 where
  pub total : ℕ
  pub limit : ℕ
  pub offset : ℕ
  pub engine : Text
  pub items : List FoundProvider

-- the properties of a `search_performed` event
pub record SearchEvent : Type 0 where
  pub query : SearchQuery
  pub engine : Text
  pub result_count : ℕ

-- the search engines, the store of the rate limiter and the stream of events
pub record SearchWorld (S N E : Type 0) : Type 0 where
  pub engines : N
  pub limiter : S
  pub events : Published E

-- the headers of a request and the address of its peer, which the limiter reads
pub record SearchPeer : Type 0 where
  pub headers : List (Text × Text)
  pub host : Option Text
  pub limits : LimitSettings
  pub rate_limit_search_max : ℕ

abbrev pub unprocessable_search : Error
unprocessable_search = error (http 422) "Unprocessable Entity"

module _ {S N E : Type 0} where
  abbrev pub at_engines : {A : Type 0} → Exec N Error A → Exec (SearchWorld S N E) Error A
  at_engines m w = ((m w.engines).0, record w { engines = (m w.engines).1 })

  pub limit_search : Redis S → SearchPeer → Text → Exec (SearchWorld S N E) Error (Unit {0})
  limit_search redis peer endpoint w =
      let checked =
        enforce_rate_limit redis peer.limits peer.headers peer.host endpoint
          peer.rate_limit_search_max none w.limiter in
      (checked.0, record w { limiter = checked.1 })

  -- `search` is `search_service.search` with its gateways, `stored` the table of providers, and `rank` the
  -- matcher's answer to the query, if it is enabled
  pub search_endpoint :
      {F : Type 0}
      → Redis S
      → SearchPeer
      → (Text → Text → ℕ → E → Bool × E)
      → EventEmitter
      → (SearchEvent → Text)
      → (SearchQuery → Exec N Error (SearchResult F))
      → (SearchResult F → List FoundProvider → Result Error (SearchResult F))
      → List FoundProvider
      → SearchQuery
      → Exec (SearchWorld S N E) Error SearchResponse
  search_endpoint redis peer xadd emitter payload search rerank stored query = do
    guard
        (leb 1 (length query.q)
          && (leb (length query.q) 200 && (leb 1 query.limit && leb query.limit 100)))
        unprocessable_search
    limit_search redis peer (codes "search")
    result ← at_engines (search query)
    let providers = hydrate_providers stored (map (λ h. h.provider_id) result.hits)
    reranked ← lift (rerank result providers)
    modify λ w. record w {
      events =
          emit xadd emitter
            (payload
              (record { query = query; engine = reranked.engine; result_count = reranked.total }))
            w.events;
    }
    pure (record {
      total = reranked.total;
      limit = query.limit;
      offset = query.offset;
      engine = reranked.engine;
      items = hydrate_providers providers (map (λ h. h.provider_id) reranked.hits);
    })

  -- `index` is the client that `suggest` calls
  pub search_suggest_endpoint :
      Redis S
      → SearchPeer
      → (Text → List Text → ℕ → Exec N Error (List SuggestHit))
      → SearchQuery
      → Exec (SearchWorld S N E) Error (List SearchSuggestion)
  search_suggest_endpoint redis peer index query = do
    guard
        (leb 2 (length query.q)
          && (leb (length query.q) 120 && (leb 1 query.limit && leb query.limit 10)))
        unprocessable_search
    limit_search redis peer (codes "search-suggest")
    at_engines (suggest index (record query { offset = 0 }))
