-- ===== src/Lib.antt =====
-- The Python backend of ozzb2b, a directory of business services: the parts that keep accounts,
-- leads and the e-mails to providers, the claims of profiles, the chat, the search,
-- the safe fetch of pages and the rate limit, and the scraper's pipeline. Paths start at the repository's root.
--
-- The parts. `Errors` is errors.py: an exception is a value, its class with its message.
-- `Shared.Session` is the database session: a computation takes the tables and returns a result with
-- the tables, also when it raises, and `get_db` (apps/api/src/ozzb2b_api/db/session.py) commits or
-- rolls back around a request. Tables are lists of rows with the newest first, a query is a filter,
-- and an insertion fails on the unique constraints that the schema has. Ids, random strings and the
-- readings of the clock are arguments. `Shared.Strings` has Python's text methods; `lower` maps the
-- Latin and the Russian letters, and a text is the list of its code points.
--
-- `Auth` is services/auth.py under apps/api/src/ozzb2b_api, with the endpoints
-- of routes/auth.py: `register`, `authenticate`, `issue_tokens`, `rotate_refresh` and
-- `revoke_refresh` keep their names, and the branches of `rotate_refresh` are `reject_reused`,
-- `rotate_live` and `rotate_for`. Hashing, passwords and PyJWT are the record `Crypto`.
-- `Auth.Requests` has the endpoints and the tables that requests lead to.
--
-- `Mailer` is services/mailer.py, where the mail server is a function. `Leads` is services/leads.py
-- with the admin handlers of routes/leads.py: `Leads.Form` the form token and the checks on content,
-- `Leads.Match` the choice of providers, `Leads.Draft` the texts, `Leads.Create` the storing of a lead
-- with its drafts, `Leads.Submit` the handler of the public form behind its rate limit,
-- `Leads.Outreach` the operations on messages, `Leads.Admin` the requests that call
-- them. The mails that left are a part of the state that no rollback takes back.
--
-- `Claims` is services/claims.py: `initiate_claim`, `verify_claim`, `admin_verify_claim` and
-- `admin_reject_claim` keep their names. The fetch of the homepage lies between the two halves of
-- `verify_claim`, `check_claim` and `settle_claim`, and other requests can run there; a `Step` is
-- what one request does without such a gap. The index on verified claims of the
-- migration 20260423_0004 is `other_verified`. The pattern for the meta tag is searched by the record
-- `Tools`, and the text of a failed fetch is not kept.
--
-- `RateLimit` is security/rate_limit.py: `hit`, `enforce_rate_limit` and `client_ip` keep their names,
-- and the Redis client is the record `Redis`, whose commands may raise. Metrics and the Retry-After
-- header are left out.
--
-- `Chat` is services/chat.py with db/models/chat.py: `start_or_get_conversation`, `list_conversations`,
-- `get_conversation`, `list_messages` and `send_message` keep their names. The tables carry the list
-- of what was published, and whether Redis takes a message is a function; `chat_answer` is what the
-- handlers of routes/chat.py answer to an exception.
--
-- `SafeHttp` is security/safe_http.py: `validate_url`, `fetch_text` and the checks keep their names.
-- The record `Net` is urllib, ipaddress, the resolver and httpx on a state of their own, so that two
-- lookups of a host may differ, and `Wire` keeps what was asked of them.
--
-- `Scraper` is pipeline.py and models.py under apps/scraper/src/ozzb2b_scraper: `Scraper.Refer` the
-- references of an item, `Scraper.Lookup` the searches for a provider that the item may be already,
-- `Scraper.Slug` the new slug and `Scraper.Upsert` the upsert and the run, where each statement is a
-- transaction of its own. Slugs, host names, ILIKE and similarity are the record `Externals`, and the
-- lengths of columns are left out.
-- `Scraper.Registry` is spiders/ru_fns_sme_registry.py, where a document is a tree of elements that is
-- parsed already: `parse_document`, `record_to_provider` and `crawl` keep their names.
--
-- `Search` is services/search.py: `search` with the gateway to Meilisearch, its filters and its variants
-- of the query, and in `Search.Rerank` the re-ranking and `hydrate_providers`. In `search` the
-- gateway to Postgres, the index and the matcher are arguments.
--
-- `Robots` is apps/scraper/src/ozzb2b_scraper/robots.py: `is_allowed` keeps its name, and `cached_or_fetched` is `_parser_for`.
--
-- `Events` is clients/events.py under apps/api/src/ozzb2b_api: `emit` with its attempts.
--
-- `Catalog` is the public catalogue: `Catalog.Query` and `Catalog.Facets` are services/catalog.py, with SQL's
-- joins, DISTINCT and GROUP BY as the functions on lists of `Catalog.Rows`, `Catalog.View` is
-- schemas/catalog.py and services/provider_mapping.py, `Catalog.Cached` is clients/cache.py, and
-- `Catalog.Routes` and `Catalog.Forest` are routes/catalog.py, under apps/api/src/ozzb2b_api. LIKE, lower() and
-- the collation of the database are the record `Sql`, Redis and the lock of a key the record `Redis`; a sort
-- leaves rows of one key in their order, where the database may choose any.
-- `Claims.Editing` is the rest of services/claims.py, and `Claims.Routes` the endpoints of routes/claims.py
-- and those on claims in routes/admin.py, with the rate limiter of `RateLimit` and the fetch of `SafeHttp`.
--
-- `Tokens` is security/tokens.py, with times in microseconds and PyJWT as the record `Jwt`, and `Tokens.Current` is routes/deps.py.
--
-- `Fetcher` is apps/scraper/src/ozzb2b_scraper/http.py, over `Robots`: `throttle` and `get` keep their names,
-- `attempt` is the loop of tenacity and `stream_once` with `page_of_stream` are `_stream_capped`. Its time is
-- in milliseconds, one request runs after the other, and the limit on requests in flight is left out. httpx is the parameter
-- `stream`, and the redirects that it follows without a check are noted in `followed`.
-- `Chat.Routes` is the endpoints of routes/chat.py with the events that they emit and the tokens of `Tokens`.
--
-- `Indexer` is services/indexer.py under apps/api/src/ozzb2b_api, over the rows of `Catalog`: `index_rest` is the
-- loop of `reindex_all`, and `index_provider` is `upsert_one`.
-- `Search.Fallback` is the gateway to Postgres of services/search.py, `Search.Suggest` its `suggest`, and
-- `Search.Endpoint` the endpoints of routes/search.py.
--
-- Bounds. Numbers of the source are unbounded integers that are never negative there. The fuel of
-- `decimal` is the number itself plus one, and a number has no more digits than that; the fuel of
-- `first_free` is the number of providers plus one, as each round passes the slug of another. All other
-- loops are by structural recursion.
--
-- Not modelled: cookies, logging and metrics, the analytics queries, the other spiders,
-- and the services in other languages.
pub mod Shared
pub mod Errors
pub mod Domain
pub mod Auth
pub mod Mailer
pub mod Leads
pub mod Claims
pub mod RateLimit
pub mod Chat
pub mod SafeHttp
pub mod Scraper
pub mod Search
pub mod Robots
pub mod Events
pub mod Catalog
pub mod Tokens
pub mod Fetcher
pub mod Indexer
