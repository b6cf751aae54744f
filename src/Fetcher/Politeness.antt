-- ===== src/Fetcher/Politeness.antt =====
-- Robots before requests, pauses between them, and an end to the attempts, in http.py.
use ozzb2b.Shared.{
  ℕ, zero, suc, ◌+◌, ◌-◌, ◌≤◌, ◌≡◌, refl, sym, ap, ◌∙◌, ◌⊎◌, inl, inr, true, false, List, [], ◌∷◌,
  ◌++◌, arith, Text, err, Bool-cases, text_eq, times, subst,
}
use ozzb2b.Robots.{is_allowed}
use ozzb2b.Fetcher.{
  robots_disallowed, FetchNet, FetchSettings, FetchState, last_of, is_transport_error, throttle,
  stream_once, attempt, get, get_all,
}

module _ {R N : Type 0} (world : FetchNet R N) (cfg : FetchSettings) where
  times-cons :
      (k : ℕ) (url : Text) (us : List Text) → times k url ++ url ∷ us ≡ url ∷ (times k url ++ us)
  unfolding times
  times-cons zero url us = refl
  times-cons (suc k) url us = ap (λ l. url ∷ l) (times-cons k url us)

  -- one to `1 + left` requests, all of the one URL
  abbrev pub Requests : ℕ → Text → List Text → List Text → Type 0
  Requests left url before after = (k : ℕ) × (k ≤ left) × (after ≡ url ∷ (times k url ++ before))

  one_more :
      (left : ℕ) (url : Text) (before after : List Text)
      → Requests left url (url ∷ before) after
      → Requests (suc left) url before after
  one_more left url before after (k, bound, e) =
      (suc k, omega arith, unfold times in e ∙ ap (λ l. url ∷ l) (times-cons k url before))

  attempt-Requests :
      (left number : ℕ) (url : Text) (s : FetchState R N)
      → Requests left url s.requested (attempt world cfg number left url s).1.requested
  unfolding attempt stream_once times
  attempt-Requests zero number url s = (0, omega arith, refl)
  attempt-Requests (suc left) number url s =
      elim (Bool-cases (is_transport_error (stream_once world cfg url s).0)) [
        | inl e ↦ rw e (
            one_more left url s.requested _ (
              attempt-Requests left (suc number) url (record (stream_once world cfg url s).1 {
                robots = record (stream_once world cfg url s).1.robots {
                  net =
                      world.sleep (world.backoff number) (stream_once world cfg url s).1.robots.net;
                };
              })))
        | inr e ↦ rw e (0, omega arith, refl)
      ]

  attempt-last_call :
      (left number : ℕ) (url : Text) (s : FetchState R N)
      → (attempt world cfg number left url s).1.last_call ≡ s.last_call
  unfolding attempt stream_once
  attempt-last_call zero number url s = refl
  attempt-last_call (suc left) number url s =
      elim (Bool-cases (is_transport_error (stream_once world cfg url s).0)) [
        | inl e ↦ rw e (attempt-last_call left (suc number) url _)
        | inr e ↦ rw e refl
      ]

  -- each call of a host is `min_interval` after the one before it
  abbrev pub IsSpaced : List (Text × ℕ) → Type 0
  IsSpaced [] = Unit
  IsSpaced ((host, time) ∷ calls) = (last_of host calls + cfg.min_interval ≤ time) × IsSpaced calls

  module _ (sleep_lem : (d : ℕ) (n : N) → world.now n + d ≤ world.now (world.sleep d n)) where
    throttle-IsSpaced :
        (host : Text) (s : FetchState R N)
        → IsSpaced s.last_call
        → IsSpaced (throttle world cfg host s).last_call
    unfolding throttle
    throttle-IsSpaced host s h = (
      ground (
        arith,
        sleep_lem (last_of host s.last_call + cfg.min_interval - world.now s.robots.net)
            s.robots.net,
      ),
      h,
    )

    -- the state after robots.txt was asked, and after the pause
    abbrev asked : Text → FetchState R N → FetchState R N
    asked url s = record s {
      robots = (is_allowed world.robots cfg.user_agent cfg.robots_strict url s.robots).1;
    }

    abbrev paused : Text → FetchState R N → FetchState R N
    paused url s = throttle world cfg (world.host url) (asked url s)

    -- a request that robots.txt forbids, and one that it allows
    pub record Blocked (url : Text) (s : FetchState R N) : Type 0 where
      pub forbidden :
          (is_allowed world.robots cfg.user_agent cfg.robots_strict url s.robots).0 ≡ false
      pub error : (get world cfg url s).0 ≡ err (robots_disallowed url)
      pub requested : (get world cfg url s).1.requested ≡ s.requested
      pub followed : (get world cfg url s).1.followed ≡ s.followed
      pub last_call : (get world cfg url s).1.last_call ≡ s.last_call

    pub record Sent (url : Text) (s : FetchState R N) : Type 0 where
      pub allowed : (is_allowed world.robots cfg.user_agent cfg.robots_strict url s.robots).0 ≡ true
      pub requested : Requests 2 url s.requested (get world cfg url s).1.requested
      pub time : ℕ
      pub last_call : (get world cfg url s).1.last_call ≡ (world.host url, time) ∷ s.last_call
      pub later : last_of (world.host url) s.last_call + cfg.min_interval ≤ time

    get-Blocked :
        (url : Text) (s : FetchState R N)
        → (is_allowed world.robots cfg.user_agent cfg.robots_strict url s.robots).0 ≡ false
        → Blocked url s
    unfolding get
    get-Blocked url s h = record {
      forbidden = h;
      error = rw h refl;
      requested = rw h refl;
      followed = rw h refl;
      last_call = rw h refl;
    }

    get-Sent :
        (url : Text) (s : FetchState R N)
        → IsSpaced s.last_call
        → (is_allowed world.robots cfg.user_agent cfg.robots_strict url s.robots).0 ≡ true
        → Sent url s
    unfolding get throttle
    get-Sent url s spaced h = record {
      allowed = h;
      requested = rw h (attempt-Requests 2 1 url (paused url s));
      time = world.now (paused url s).robots.net;
      last_call = rw h (attempt-last_call 2 1 url (paused url s));
      later = (throttle-IsSpaced (world.host url) (asked url s) spaced).0;
    }

    -- Where a sleep lets at least its time pass: a URL that robots.txt forbids is not requested, no redirect
    -- is followed from it, and it ends in RobotsDisallowed. For a URL that it allows, the client asks httpx
    -- once, twice or three times, each time for that URL, the call is noted at a time that is the minimum
    -- interval or more after the last call of its host, and the calls noted stay that far apart. The
    -- redirects that httpx follows from an allowed URL are neither checked nor noted, and nothing is said
    -- of them.
    pub get_polite :
        (url : Text) (s : FetchState R N)
        → IsSpaced s.last_call
        → (Blocked url s ⊎ Sent url s) × IsSpaced (get world cfg url s).1.last_call
    get_polite url s spaced =
        elim (Bool-cases
          (is_allowed world.robots cfg.user_agent cfg.robots_strict url s.robots).0) [
            | inl e ↦
                let sent = get-Sent url s spaced e in
                (inr sent, subst IsSpaced (sym sent.last_call) (sent.later, spaced))
            | inr e ↦
                let blocked = get-Blocked url s e in
                (inl blocked, subst IsSpaced (sym blocked.last_call) spaced)
          ]

    -- the calls of any series of URLs stay apart
    pub get_all-IsSpaced :
        (urls : List Text) (s : FetchState R N)
        → IsSpaced s.last_call
        → IsSpaced (get_all world cfg urls s).last_call
    unfolding get_all
    get_all-IsSpaced [] s h = h
    get_all-IsSpaced (url ∷ urls) s h =
        get_all-IsSpaced urls (get world cfg url s).1 (get_polite url s h).1
