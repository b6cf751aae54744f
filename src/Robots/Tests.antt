-- ===== src/Robots/Tests.antt =====
-- Questions to the cache of robots.txt, and its theorem applied there.
use ozzb2b.Shared.{
  ℕ, ◌+◌, ◌≡◌, refl, Bool, true, false, not, Option, none, some, List, [], ◌∷◌, ◌==◌, text_eq, Text,
  codes, take, map, if◌then◌else◌,
}
use ozzb2b.Robots.{RobotsReply, http_error, answered, Parser, RobotsNet, RobotsState, all_allowed}
use ozzb2b.Robots.Cache.{policy, IsCache, all_allowed-policy}

-- the first letter is the host; the site `a` forbids one page, and the others have no rules
abbrev site : Text → RobotsReply
site url =
    if url == codes "https://a/robots.txt" then answered 200 (codes "ab") else answered 404 []

-- the network counts its requests
abbrev world : RobotsNet Text ℕ
world = record {
  scheme = λ url. codes "https";
  netloc = λ url. take 1 url;
  get = λ url n. (site url, n + 1);
  parse = λ text. some text;
  can_fetch = λ page agent url. not (url == page);
}

abbrev empty : RobotsState Text ℕ
empty = record { parsers = []; net = 0; asked = [] }

abbrev urls : List Text
urls = codes "aa" ∷ codes "ab" ∷ codes "ba" ∷ codes "aa" ∷ []

answers : (all_allowed world (codes "bot") false urls empty).0 ≡ true ∷ false ∷ true ∷ true ∷ []
unfolding all_allowed ozzb2b.Robots.is_allowed ozzb2b.Robots.has_host ozzb2b.Robots.can_fetch
    ozzb2b.Robots.cached_or_fetched ozzb2b.Shared.find ozzb2b.Robots.fetch_parser
    ozzb2b.Robots.parser_of ozzb2b.Shared.list_beq ozzb2b.Robots.robots_url ozzb2b.Robots.key_of
    ozzb2b.Robots.on_fetch_failure
answers = refl

strict : (all_allowed world (codes "bot") true urls empty).0 ≡ true ∷ false ∷ false ∷ true ∷ []
unfolding all_allowed ozzb2b.Robots.is_allowed ozzb2b.Robots.has_host ozzb2b.Robots.can_fetch
    ozzb2b.Robots.cached_or_fetched ozzb2b.Shared.find ozzb2b.Robots.fetch_parser
    ozzb2b.Robots.parser_of ozzb2b.Shared.list_beq ozzb2b.Robots.robots_url ozzb2b.Robots.key_of
    ozzb2b.Robots.on_fetch_failure
strict = refl

requests : (all_allowed world (codes "bot") false urls empty).1.net ≡ 2
unfolding all_allowed ozzb2b.Robots.is_allowed ozzb2b.Robots.has_host
    ozzb2b.Robots.cached_or_fetched ozzb2b.Shared.find ozzb2b.Robots.fetch_parser
    ozzb2b.Shared.list_beq ozzb2b.Robots.key_of
requests = refl

empty-IsCache : IsCache world (codes "bot") false site empty
empty-IsCache = record { held = tt; keys = tt; asked = refl }

all_allowed-policy_example :
    ((all_allowed world (codes "bot") false urls empty).0
      ≡ map (policy world (codes "bot") false site) urls)
    × IsCache world (codes "bot") false site (all_allowed world (codes "bot") false urls empty).1
all_allowed-policy_example =
    all_allowed-policy world (codes "bot") false site (λ url n. refl) urls empty empty-IsCache
