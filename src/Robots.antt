-- ===== src/Robots.antt =====
-- The cache of robots.txt: apps/scraper/src/ozzb2b_scraper/robots.py. The HTTP client, urlsplit and
-- robotparser are arguments.
pub mod Cache
pub mod Tests
use ozzb2b.Shared.{
  ℕ, Bool, true, false, ◌&&◌, Option, none, some, List, [], ◌∷◌, ◌++◌, ◌==◌, text_eq, Text, codes,
  is_truthy, find, leb, if◌then◌else◌,
}

-- how a GET of robots.txt ends
pub data RobotsReply : Type 0 where
  http_error : RobotsReply
  answered : ℕ → Text → RobotsReply

-- a RobotFileParser that has read its rules, or one of its two replacements
pub data Parser (R : Type 0) : Type 0 where
  rules : R → Parser R
  allow_all : Parser R
  deny_all : Parser R

-- `parse` gives `none` when it raises
pub record RobotsNet (R N : Type 0) : Type 0 where
  pub scheme : Text → Text
  pub netloc : Text → Text
  pub get : Text → N → RobotsReply × N
  pub parse : Text → Option R
  pub can_fetch : R → Text → Text → Bool

-- the parsers by scheme and host, the network, and the URLs that were asked for, newest first
pub record RobotsState (R N : Type 0) : Type 0 where
  pub parsers : List (Text × Parser R)
  pub net : N
  pub asked : List Text

pub robots_url : Text → Text
robots_url key = key ++ codes "/robots.txt"

module _ {R N : Type 0} (world : RobotsNet R N) (user_agent : Text) (robots_strict : Bool) where
  unfoldable pub can_fetch : Parser R → Text → Bool
  can_fetch (rules r) url = world.can_fetch r user_agent url
  can_fetch allow_all url = true
  can_fetch deny_all url = false

  pub on_fetch_failure : Parser R
  on_fetch_failure = if robots_strict then deny_all else allow_all

  -- the parser that a reply leads to
  unfoldable pub parser_of : RobotsReply → Parser R
  parser_of http_error = on_fetch_failure
  parser_of (answered code text) =
      if leb 400 code
      then on_fetch_failure
      else (elim (world.parse text) [ none ↦ on_fetch_failure | some r ↦ rules r ])

  unfoldable pub has_host : Text → Bool
  has_host url = is_truthy (world.scheme url) && is_truthy (world.netloc url)

  unfoldable pub key_of : Text → Text
  key_of url = world.scheme url ++ codes "://" ++ world.netloc url

  unfoldable pub fetch_parser : Text → RobotsState R N → Parser R × RobotsState R N
  fetch_parser key s =
      let reply = world.get (robots_url key) s.net in
      (
        parser_of reply.0,
        record {
          parsers = (key, parser_of reply.0) ∷ s.parsers;
          net = reply.1;
          asked = robots_url key ∷ s.asked;
        },
      )

  unfoldable pub cached_or_fetched : Text → RobotsState R N → Parser R × RobotsState R N
  cached_or_fetched key s = elim (find (λ e. e.0 == key) s.parsers) [
    | some e ↦ (e.1, s)
    | none ↦ fetch_parser key s
  ]

  unfoldable pub is_allowed : Text → RobotsState R N → Bool × RobotsState R N
  is_allowed url s =
      let found = cached_or_fetched (key_of url) s in
      if has_host url then (can_fetch found.0 url, found.1) else (true, s)

  -- one URL after the other
  pub all_allowed : List Text → RobotsState R N → List Bool × RobotsState R N
  all_allowed [] s = ([], s)
  all_allowed (url ∷ urls) s =
      let first = is_allowed url s in
      let rest = all_allowed urls first.1 in (first.0 ∷ rest.0, rest.1)
