-- ===== src/Fetcher.antt =====
-- The polite fetcher of the scraper: apps/scraper/src/ozzb2b_scraper/http.py, one request after the other. Times
-- are in milliseconds of the monotonic clock, which is read from the state of the network; httpx, the
-- clock and the waits of tenacity are arguments.
pub mod Politeness
mod Tests
use ozzb2b.Shared.{
  ℕ, zero, suc, ◌+◌, ◌-◌, Bool, true, false, not, ◌&&◌, ◌||◌, Option, none, some, List, [], ◌∷◌,
  ◌++◌, ◌==◌, text_eq, Text, codes, lower, prefix, is_truthy, has_infix, find, select, any, length,
  max, ltb, leb, if◌then◌else◌, Result, ok, err,
}
use ozzb2b.Robots.{RobotsNet, RobotsState, is_allowed}

-- how a streamed GET ends, with the chunks of its body
pub data Streamed : Type 0 where
  transport_error : Streamed
  streamed : ℕ → List (Text × Text) → List Text → Streamed

pub data FetchError : Type 0 where
  robots_disallowed response_too_large : Text → FetchError
  bad_status : ℕ → FetchError
  transport : FetchError

pub record Page : Type 0 where
  pub status_code : ℕ
  pub headers : List (Text × Text)
  pub content : Text

-- robots.txt and its client, `httpx.URL(url).host`, the clock, a sleep, and the client of the pages;
-- `stream`
-- also answers the targets of the redirects that httpx follows (follow_redirects=True), the last one
-- first; `backoff` is the wait of tenacity after an attempt
pub record FetchNet (R N : Type 0) : Type 0 where
  pub robots : RobotsNet R N
  pub host : Text → Text
  pub now : N → ℕ
  pub sleep : ℕ → N → N
  pub stream : Text → N → Streamed × List Text × N
  pub backoff : ℕ → ℕ

pub record FetchSettings : Type 0 where
  pub user_agent : Text
  pub robots_strict : Bool
  pub min_interval : ℕ
  pub max_response_bytes : ℕ

-- the cache of robots.txt with the network, `_last_call` with the newest entry of a host first, the URLs
-- that were requested, and those to which httpx was redirected from there, newest first
pub record FetchState (R N : Type 0) : Type 0 where
  pub robots : RobotsState R N
  pub last_call : List (Text × ℕ)
  pub requested : List Text
  pub followed : List Text

-- `max(1024, cfg.max_response_bytes)`
abbrev pub max_bytes : FetchSettings → ℕ
max_bytes cfg = max 1024 cfg.max_response_bytes

-- the time of the last call, 0 for a host that has none
abbrev pub time_of : Option (Text × ℕ) → ℕ
time_of none = 0
time_of (some e) = e.1

pub last_of : Text → List (Text × ℕ) → ℕ
last_of host calls = time_of (find (λ e. e.0 == host) calls)

-- the loop over the chunks, with the bytes received so far
pub read_capped : ℕ → Text → ℕ → List Text → Result FetchError Text
read_capped cap url received [] = ok []
read_capped cap url received (chunk ∷ chunks) =
    let rest = read_capped cap url (received + length chunk) chunks in
    if ltb cap (received + length chunk)
    then err (response_too_large url)
    else (elim rest [ err e ↦ err e | ok s ↦ ok (chunk ++ s) ])

-- the headers that describe the body as it was sent
abbrev pub is_about_encoding : Text × Text → Bool
is_about_encoding h = lower h.0 == codes "content-encoding" || lower h.0 == codes "content-length"

-- `raise_for_status`, which lets the codes of success pass, and the page with its body
pub page_of_stream : ℕ → Text → Streamed → Result FetchError Page
page_of_stream cap url transport_error = err transport
page_of_stream cap url (streamed code headers chunks) =
    if not (leb 200 code && leb code 299)
    then err (bad_status code)
    else (elim (read_capped cap url 0 chunks) [
      | err e ↦ err e
      | ok body ↦ ok (record {
        status_code = code;
        headers = select (λ h. not (is_about_encoding h)) headers;
        content = body;
      })
    ])

abbrev pub is_transport_error : Streamed → Bool
is_transport_error transport_error = true
is_transport_error (streamed code headers chunks) = false

module _ {R N : Type 0} (world : FetchNet R N) (cfg : FetchSettings) where
  pub with_net : N → FetchState R N → FetchState R N
  with_net net s = record s { robots = record s.robots { net = net } }

  unfoldable pub throttle : Text → FetchState R N → FetchState R N
  unfolding with_net
  throttle host s =
      let wait = last_of host s.last_call + cfg.min_interval - world.now s.robots.net in
      let net = if ltb 0 wait then world.sleep wait s.robots.net else s.robots.net in
      record (with_net net s) { last_call = (host, world.now net) ∷ s.last_call }

  unfoldable pub stream_once : Text → FetchState R N → Streamed × FetchState R N
  unfolding with_net
  stream_once url s =
      let reply = world.stream url s.robots.net in
      (
        reply.0,
        record (with_net reply.2 s) {
          requested = url ∷ s.requested;
          followed = reply.1 ++ s.followed;
        },
      )

  -- the attempt with this number, and `left` more
  unfoldable pub attempt : ℕ → ℕ → Text → FetchState R N → Result FetchError Page × FetchState R N
  unfolding with_net
  attempt number zero url s =
      let reply = stream_once url s in (page_of_stream (max_bytes cfg) url reply.0, reply.1)
  attempt number (suc left) url s =
      let reply = stream_once url s in
      let waited = with_net (world.sleep (world.backoff number) reply.1.robots.net) reply.1 in
      let again = attempt (suc number) left url waited in
      if is_transport_error reply.0
      then again
      else (page_of_stream (max_bytes cfg) url reply.0, reply.1)

  unfoldable pub get : Text → FetchState R N → Result FetchError Page × FetchState R N
  get url s =
      let allowed = is_allowed world.robots cfg.user_agent cfg.robots_strict url s.robots in
      let asked = record s { robots = allowed.1 } in
      if allowed.0
      then attempt 1 2 url (throttle (world.host url) asked)
      else (err (robots_disallowed url), asked)

  -- one URL after the other
  unfoldable pub get_all : List Text → FetchState R N → FetchState R N
  get_all [] s = s
  get_all (url ∷ urls) s = get_all urls (get url s).1

abbrev pub challenge_markers : List Text
challenge_markers =
    codes "cf-chl-bypass"
    ∷ codes "cf-browser-verification"
    ∷ codes "__cf_chl_"
    ∷ codes "challenge-platform"
    ∷ codes "g-recaptcha"
    ∷ codes "grecaptcha"
    ∷ codes "h-captcha"
    ∷ codes "hcaptcha.com"
    ∷ codes "_imperva"
    ∷ codes "datadome"
    ∷ []

pub looks_like_challenge : Text → Bool
looks_like_challenge html =
    is_truthy html && any (λ marker. has_infix marker (lower (prefix 8192 html))) challenge_markers
