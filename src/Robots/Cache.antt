-- ===== src/Robots/Cache.antt =====
-- The cache keeps to the rules of the sites, and asks each site once.
use ozzb2b.Shared.{
  ◌≡◌, refl, ap, ◌∙◌, inl, inr, Bool, true, List, [], ◌∷◌, ◌==◌, text_eq, eq_iff, Text, map, find,
  find_sound, if◌then◌else◌, All, All-Mem, find-Mem, any-of_find-none, IsUnique, Option-cases,
  Bool-cases,
}
use ozzb2b.Robots.{
  RobotsReply, Parser, RobotsNet, RobotsState, robots_url, can_fetch, parser_of, has_host, key_of,
  fetch_parser, cached_or_fetched, is_allowed, all_allowed,
}

module _ {R N : Type 0} (world : RobotsNet R N) (user_agent : Text) (robots_strict : Bool)
    (site : Text → RobotsReply) where
  -- the rule without a cache: what the reply of the URL's site says of the URL
  pub policy : Text → Bool
  policy url =
      if has_host world user_agent robots_strict url
      then can_fetch world user_agent robots_strict
          (parser_of world user_agent robots_strict
            (site (robots_url (key_of world user_agent robots_strict url))))
          url
      else true

  -- a cache that holds the parsers of the sites, each site once and each asked for once
  pub record IsCache (s : RobotsState R N) : Type 0 where
    pub held :
        All
          (λ (e : Text × Parser R).
            e.1 ≡ parser_of world user_agent robots_strict (site (robots_url e.0)))
          s.parsers
    pub keys : IsUnique (λ (e : Text × Parser R). e.0) s.parsers
    pub asked : s.asked ≡ map (λ e. robots_url e.0) s.parsers

  module _ (stable : (url : Text) (n : N) → (world.get url n).0 ≡ site url) where
    cached_lem :
        (key : Text) (s : RobotsState R N)
        → IsCache s
        → ((cached_or_fetched world user_agent robots_strict key s).0
            ≡ parser_of world user_agent robots_strict (site (robots_url key)))
          × IsCache (cached_or_fetched world user_agent robots_strict key s).1
    unfolding cached_or_fetched fetch_parser
    cached_lem key s c = elim (Option-cases (find (λ e. e.0 == key) s.parsers)) [
      | inr (e, h) ↦
          let same : e.0 ≡ key = (eq_iff e.0 key).0 (find_sound (λ e. e.0 == key) s.parsers h) in
          let right =
            All-Mem
              (λ (e : Text × Parser R).
                e.1 ≡ parser_of world user_agent robots_strict (site (robots_url e.0)))
              s.parsers c.held (find-Mem (λ e. e.0 == key) s.parsers h) in
          rw (h, cached_or_fetched)
            (
              right ∙ ap (λ k. parser_of world user_agent robots_strict (site (robots_url k))) same,
              c,
            )
      | inl h ↦
          let right =
            ap (parser_of world user_agent robots_strict) (stable (robots_url key) s.net) in
          rw (h, cached_or_fetched)
            (
              right,
              record {
                held = (right, c.held);
                keys = (any-of_find-none (λ e. e.0 == key) s.parsers h, c.keys);
                asked = ap (λ urls. robots_url key ∷ urls) c.asked;
              },
            )
    ]

    is_allowed_lem :
        (url : Text) (s : RobotsState R N)
        → IsCache s
        → ((is_allowed world user_agent robots_strict url s).0 ≡ policy url)
          × IsCache (is_allowed world user_agent robots_strict url s).1
    unfolding is_allowed policy
    is_allowed_lem url s c = elim (Bool-cases (has_host world user_agent robots_strict url)) [
      | inl h ↦
          let (right, kept) = cached_lem (key_of world user_agent robots_strict url) s c in
          rw h (ap (λ p. can_fetch world user_agent robots_strict p url) right, kept)
      | inr h ↦ rw h (refl, c)
    ]

    -- The cache refines the rules of the sites: while the sites do not change their answers, any
    -- sequence of questions is answered as by the rule without a cache, and each robots.txt is asked
    -- for at most once.
    pub all_allowed-policy :
        (urls : List Text) (s : RobotsState R N)
        → IsCache s
        → ((all_allowed world user_agent robots_strict urls s).0 ≡ map policy urls)
          × IsCache (all_allowed world user_agent robots_strict urls s).1
    unfolding all_allowed
    all_allowed-policy [] s c = (refl, c)
    all_allowed-policy (url ∷ urls) s c =
        let (first, kept) = is_allowed_lem url s c in
        let (rest, at_end) =
          all_allowed-policy urls (is_allowed world user_agent robots_strict url s).1 kept in
        (
          ap
                (λ b.
                  b
                  ∷ (all_allowed world user_agent robots_strict urls
                      (is_allowed world user_agent robots_strict url s).1).0)
                first
              ∙ ap (λ bs. policy url ∷ bs) rest,
          at_end,
        )
