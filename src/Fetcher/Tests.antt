-- ===== src/Fetcher/Tests.antt =====
-- Fetches on a network whose state is its clock, and the theorem on `get` applied there.
use ozzb2b.Shared.{
  ℕ, ◌+◌, ◌*◌, ◌≤◌, ◌≡◌, ◌⊎◌, refl, Bool, true, false, Option, none, some, List, [], ◌∷◌, Text,
  codes, ◌==◌, text_eq, ltb, if◌then◌else◌, Result, ok, err, arith, list_beq, find, length,
}
use ozzb2b.Robots.{RobotsNet, RobotsState, RobotsReply}
use ozzb2b.Fetcher.{
  Streamed, FetchError, Page, FetchNet, FetchSettings, FetchState, get, get_all,
  looks_like_challenge,
}
use ozzb2b.Fetcher.Politeness.{Blocked, Sent, IsSpaced, get_polite}

abbrev robots : RobotsNet Text ℕ
robots = record {
  scheme = λ url. codes "https";
  netloc = λ url. codes "h";
  get = λ url n. (RobotsReply.answered 200 (codes "/x"), n + 10);
  parse = λ s. some s;
  can_fetch = λ r agent url. if url == r then false else true;
}

-- no answer in the first two seconds
abbrev world : FetchNet Text ℕ
world = record {
  robots = robots;
  host = λ url. codes "h";
  now = λ n. n;
  sleep = λ d n. n + d;
  stream = λ url n. (
    if ltb n 2000
        then Streamed.transport_error
        else Streamed.streamed 200 ((codes "Content-Encoding", codes "gzip") ∷ [])
            (codes "a" ∷ codes "b" ∷ []),
    if url == codes "/b" then codes "/x" ∷ [] else [],
    n + 50,
  );
  backoff = λ number. 1000 * number;
}

abbrev cfg : FetchSettings
cfg = record {
  user_agent = codes "bot";
  robots_strict = true;
  min_interval = 500;
  max_response_bytes = 0;
}

abbrev start : FetchState Text ℕ
start = record {
  robots = record { parsers = []; net = 1000; asked = [] };
  last_call = (codes "h", 900) ∷ [];
  requested = [];
  followed = [];
}

retried :
    (get world cfg (codes "/a") start).0
    ≡ ok (record { status_code = 200; headers = []; content = codes "ab" })
unfolding get ozzb2b.Robots.is_allowed ozzb2b.Robots.has_host ozzb2b.Robots.can_fetch
    ozzb2b.Robots.cached_or_fetched find ozzb2b.Robots.fetch_parser ozzb2b.Robots.parser_of list_beq
    ozzb2b.Fetcher.attempt ozzb2b.Fetcher.stream_once ozzb2b.Fetcher.throttle ozzb2b.Fetcher.last_of
    ozzb2b.Fetcher.page_of_stream ozzb2b.Fetcher.read_capped ozzb2b.Shared.select
    ozzb2b.Shared.lower ozzb2b.Shared.lower_char
retried = refl

times_of_calls :
    (get_all world cfg (codes "/a" ∷ codes "/x" ∷ codes "/b" ∷ []) start).last_call
    ≡ (codes "h", 2500) ∷ (codes "h", 1400) ∷ (codes "h", 900) ∷ []
unfolding get_all get ozzb2b.Robots.is_allowed ozzb2b.Robots.has_host ozzb2b.Robots.can_fetch
    ozzb2b.Robots.cached_or_fetched find ozzb2b.Robots.fetch_parser ozzb2b.Robots.parser_of list_beq
    ozzb2b.Fetcher.attempt ozzb2b.Fetcher.stream_once ozzb2b.Fetcher.throttle ozzb2b.Fetcher.last_of
    ozzb2b.Robots.key_of
times_of_calls = refl

requests :
    (get_all world cfg (codes "/a" ∷ codes "/x" ∷ codes "/b" ∷ []) start).requested
    ≡ codes "/b" ∷ codes "/a" ∷ codes "/a" ∷ []
unfolding get_all get ozzb2b.Robots.is_allowed ozzb2b.Robots.has_host ozzb2b.Robots.can_fetch
    ozzb2b.Robots.cached_or_fetched find ozzb2b.Robots.fetch_parser ozzb2b.Robots.parser_of list_beq
    ozzb2b.Fetcher.attempt ozzb2b.Fetcher.stream_once ozzb2b.Fetcher.throttle ozzb2b.Fetcher.last_of
    ozzb2b.Robots.key_of
requests = refl

-- a redirect leads to the URL that robots.txt forbids
redirected :
    (get_all world cfg (codes "/a" ∷ codes "/x" ∷ codes "/b" ∷ []) start).followed ≡ codes "/x" ∷ []
unfolding get_all get ozzb2b.Robots.is_allowed ozzb2b.Robots.has_host ozzb2b.Robots.can_fetch
    ozzb2b.Robots.cached_or_fetched find ozzb2b.Robots.fetch_parser ozzb2b.Robots.parser_of list_beq
    ozzb2b.Fetcher.attempt ozzb2b.Fetcher.stream_once ozzb2b.Fetcher.throttle ozzb2b.Fetcher.last_of
    ozzb2b.Robots.key_of
redirected = refl

start-IsSpaced : IsSpaced world cfg start.last_call
unfolding ozzb2b.Fetcher.last_of find
start-IsSpaced = (first, tt)
  where
    first : 0 + 500 ≤ 900
    first = omega arith

get_polite_example :
    (Blocked world cfg (λ d n. omega arith) (codes "/a") start
      ⊎ Sent world cfg (λ d n. omega arith) (codes "/a") start)
    × IsSpaced world cfg (get world cfg (codes "/a") start).1.last_call
get_polite_example = get_polite world cfg (λ d n. omega arith) (codes "/a") start start-IsSpaced
