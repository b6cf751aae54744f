-- ===== src/SafeHttp/Vetting.antt =====
-- Every URL that is requested was vetted before.
use ozzb2b.Shared.{
  ℕ, zero, suc, ◌≡◌, refl, ap, subst, Bool, true, false, ◌&&◌, Option, none, some, List, [], ◌∷◌,
  ◌==◌, text_eq, eq_refl, all, any, Text, codes, leb, length, split, ◌++◌, eq_iff, lower, is_truthy,
  Exec, Result, ok, guard, bind-holds, bind-eq-ok, check-eq-ok, arith, Option-cases, Bool-cases,
  inl, inr,
}
use ozzb2b.Errors.{Error, error, unsafe_url}
use ozzb2b.SafeHttp.{
  SafeHttpPolicy, Net, NetEvent, looked_up, requested, Wire, Reply, redirect, body, bad_status,
  no_answer, registered_domain, is_safe_ip, resolve_host, is_allowed_scheme, host_of, is_on_domain,
  check_static, validate_url, send_get, follow, fetch_hops, fetch_text, last_two, drop_dots,
}

module _ {N : Type 0} (world : Net N) (policy : SafeHttpPolicy) where
  -- a lookup of the host whose addresses are all safe
  pub is_safe_lookup : Text → NetEvent → Bool
  is_safe_lookup host (requested url) = false
  is_safe_lookup host (looked_up h addrs) = h == host && all (is_safe_ip world) addrs

  -- a URL that may be requested after the events: its scheme is allowed, it has a host on the domain,
  -- and the host was looked up with safe addresses only
  pub record IsVetted (domain : Text) (url : Text) (events : List NetEvent) : Type 0 where
    pub scheme : is_allowed_scheme world policy (lower (world.scheme_of url)) ≡ true
    pub has_host : is_truthy (host_of world policy url) ≡ true
    pub on_domain : registered_domain (host_of world policy url) ≡ domain
    pub safe : any (is_safe_lookup (host_of world policy url)) events ≡ true

  -- every request stands after the vetting of its URL
  pub AllVetted : Text → List NetEvent → Type 0
  AllVetted domain [] = Unit
  AllVetted domain (looked_up h addrs ∷ es) = AllVetted domain es
  AllVetted domain (requested url ∷ es) = IsVetted domain url es × AllVetted domain es

  -- no requests yet
  abbrev Clean : Text → Wire N → Type 0
  Clean domain w = AllVetted domain w.asked

  resolve_host-Clean :
      (domain host : Text) (w : Wire N)
      → Clean domain w
      → Clean domain (resolve_host world host w).1
  unfolding resolve_host AllVetted
  resolve_host-Clean domain host w c = elim (Option-cases (world.resolve host w.net).0) [
    | inl e ↦ rw (e, resolve_host) c
    | inr (addrs, e) ↦ rw (e, resolve_host) c
  ]

  resolve_host-eq-ok :
      (host : Text) (w : Wire N) {addrs : List Text}
      → (resolve_host world host w).0 ≡ ok addrs
      → (resolve_host world host w).1.asked ≡ looked_up host addrs ∷ w.asked
  unfolding resolve_host
  resolve_host-eq-ok host w h = ground arith

  looked_safe :
      (host : Text) (addrs : List Text) (w : Wire N)
      → (resolve_host world host w).0 ≡ ok addrs
      → all (is_safe_ip world) addrs ≡ true
      → any (is_safe_lookup host) (resolve_host world host w).1.asked ≡ true
  unfolding any is_safe_lookup
  looked_safe host addrs w h s = rw (resolve_host-eq-ok host w h) (rw (eq_refl host, s) refl)

  pub check_static_reads :
      (expected : Option Text) (url : Text) (w : Wire N)
      → (check_static world policy expected url w).1 ≡ w
  unfolding check_static
  check_static_reads expected url w = ground arith

  validate_url-Clean :
      (domain : Text) (expected : Option Text) (url : Text) (w : Wire N)
      → Clean domain w
      → Clean domain (validate_url world policy expected url w).1
  unfolding validate_url
  validate_url-Clean domain expected url w c =
      bind-holds (Clean domain) (check_static world policy expected url) _ w
        (rw (check_static_reads expected url w) c)
        λ _ _.
          bind-holds (Clean domain) (resolve_host world (host_of world policy url)) _ _
            (looked (check_static_reads expected url w))
            λ addrs _.
              bind-holds (Clean domain) (guard (all (is_safe_ip world) addrs) _) _ _
                (looked (check_static_reads expected url w))
                λ _ _. looked (check_static_reads expected url w)
    where
      looked :
          {s : Wire N} → s ≡ w → Clean domain (resolve_host world (host_of world policy url) s).1
      looked {s} e = resolve_host-Clean domain (host_of world policy url) s (rw e c)

  check_static-eq-ok :
      (expected : Option Text) (url : Text) (w : Wire N)
      → (check_static world policy expected url w).0 ≡ ok tt
      → (is_allowed_scheme world policy (lower (world.scheme_of url)) ≡ true)
        × (is_truthy (host_of world policy url) ≡ true)
        × (is_on_domain world policy expected (host_of world policy url) ≡ true)
  unfolding check_static
  check_static-eq-ok expected url w h = ground arith

  -- what a validation that returns has found
  pub validate_url-eq-ok :
      (expected : Option Text) (url : Text) (w : Wire N) {host : Text}
      → (validate_url world policy expected url w).0 ≡ ok host
      → (host ≡ host_of world policy url)
        × (is_allowed_scheme world policy (lower (world.scheme_of url)) ≡ true)
        × (is_truthy (host_of world policy url) ≡ true)
        × (is_on_domain world policy expected (host_of world policy url) ≡ true)
        × (any
              (is_safe_lookup (host_of world policy url))
              (validate_url world policy expected url w).1.asked
            ≡ true)
  unfolding validate_url
  validate_url-eq-ok expected url w {host} h =
      let (_, static, rest) =
        bind-eq-ok (check_static world policy expected url) _ w
          (ap (λ r. (r, (validate_url world policy expected url w).1)) h) in
      let (addrs, looked, rest') =
        bind-eq-ok (resolve_host world (host_of world policy url)) _ _ rest in
      let (_, safe, rest'') =
        bind-eq-ok
          (guard (all (is_safe_ip world) addrs)
            (error unsafe_url "hostname resolves to a forbidden address"))
          _ _ rest' in
      let (scheme, there, on) = check_static-eq-ok expected url w static in
      (
        ground (arith, rest''),
        scheme,
        there,
        on,
        subst (λ (s : Wire N). any (is_safe_lookup (host_of world policy url)) s.asked ≡ true)
            (ap (λ (r : Result Error Text × Wire N). r.1) rest'')
            (looked_safe (host_of world policy url) addrs _ looked (check-eq-ok _ _ safe)),
      )

  -- a domain that is not empty pins the host
  pinned :
      (domain host : Text)
      → is_truthy domain ≡ true
      → is_on_domain world policy (some domain) host ≡ true
      → registered_domain host ≡ domain
  unfolding is_on_domain
  pinned domain host h on = ground (arith, eq_iff (registered_domain host) domain)

  module _ (domain : Text) (given : is_truthy domain ≡ true) where
    -- the next URL may be requested
    abbrev Ready : Text → Wire N → Type 0
    Ready url w = Clean domain w × IsVetted domain url w.asked

    validated :
        (url : Text) (w : Wire N) {host : Text}
        → Clean domain w
        → (validate_url world policy (some domain) url w).0 ≡ ok host
        → Ready url (validate_url world policy (some domain) url w).1
    validated url w c h =
        let (_, scheme, there, on, safe) = validate_url-eq-ok (some domain) url w h in
        (
          validate_url-Clean domain (some domain) url w c,
          record {
            scheme = scheme;
            has_host = there;
            on_domain = pinned domain (host_of world policy url) given on;
            safe = safe;
          },
        )

    send_get-Clean :
        (url : Text) (w : Wire N) → Ready url w → Clean domain (send_get world policy url w).1
    unfolding send_get AllVetted
    send_get-Clean url w r = (r.1, r.0)

    follow-Clean :
        (next : Text → Exec (Wire N) Error Text) (url : Text) (reply : Reply) (w : Wire N)
        → ((u : Text) (s : Wire N) → Ready u s → Clean domain (next u s).1)
        → Clean domain w
        → Clean domain (follow world policy next domain url reply w).1
    unfolding follow
    follow-Clean next url (redirect none) w k c = c
    follow-Clean next url (redirect (some location)) w k c =
        bind-holds (Clean domain)
          (guard (is_truthy location) (error unsafe_url "redirect with no Location header")) _ w c
          λ _ _.
            bind-holds (Clean domain)
              (validate_url world policy (some domain) (world.join_url url location)) _ w
              (validate_url-Clean domain (some domain) (world.join_url url location) w c)
              λ host h.
                k (world.join_url url location) _ (validated (world.join_url url location) w c h)
    follow-Clean next url (body chunks) w k c = c
    follow-Clean next url (bad_status code) w k c = c
    follow-Clean next url no_answer w k c = c

    fetch_hops-Clean :
        (hops : ℕ) (url : Text) (w : Wire N)
        → Ready url w
        → Clean domain (fetch_hops world policy hops domain url w).1
    unfolding fetch_hops
    fetch_hops-Clean zero url w r = r.0
    fetch_hops-Clean (suc hops) url w r =
        bind-holds (Clean domain) (send_get world policy url) _ w (send_get-Clean url w r)
          λ reply _.
            follow-Clean (fetch_hops world policy hops domain) url reply _ (fetch_hops-Clean hops)
              (send_get-Clean url w r)

  dotted_truthy : (a b : Text) → is_truthy (a ++ codes "." ++ b) ≡ true
  dotted_truthy [] b = refl
  dotted_truthy (c ∷ a) b = refl

  last_two-truthy : (a b : Text) (rest : List Text) → is_truthy (last_two (a ∷ b ∷ rest)) ≡ true
  unfolding last_two
  last_two-truthy a b [] = dotted_truthy a b
  last_two-truthy a b (c ∷ rest) = last_two-truthy b c rest

  joined-truthy : (ps : List Text) → leb 2 (length ps) ≡ true → is_truthy (last_two ps) ≡ true
  joined-truthy [] h = absurd (ground arith)
  joined-truthy (a ∷ []) h = absurd (ground arith)
  joined-truthy (a ∷ b ∷ rest) h = last_two-truthy a b rest

  lower-truthy : (s : Text) → is_truthy s ≡ true → is_truthy (lower s) ≡ true
  unfolding lower
  lower-truthy [] h = h
  lower-truthy (c ∷ s) h = refl

  registered_domain-truthy :
      (host : Text) → is_truthy host ≡ true → is_truthy (registered_domain host) ≡ true
  unfolding registered_domain
  registered_domain-truthy host h =
      elim (Bool-cases (leb 2 (length (split b'.' (drop_dots (lower host)))))) [
        | inl e ↦ rw e (joined-truthy _ e)
        | inr e ↦ rw e (lower-truthy host h)
      ]

  -- No request goes to a host that was not vetted: in a fetch, before each GET, the first and those
  -- of redirects, the scheme of its URL was found allowed, its host was found to have the registered
  -- domain of the first URL's host, and a lookup of that host gave only addresses that are neither
  -- private, loopback, link-local, multicast, reserved nor unspecified.
  pub fetch_text_vetted :
      (url : Text) (net : N)
      → AllVetted
          (registered_domain (host_of world policy url))
          (fetch_text world policy url (record { net = net; asked = [] })).1.asked
  unfolding fetch_text AllVetted
  fetch_text_vetted url net =
      bind-holds (Clean domain) (validate_url world policy none url) _ start
        (validate_url-Clean domain none url start unasked) λ host h. first host h
    where
      domain : Text
      domain = registered_domain (host_of world policy url)

      start : Wire N
      start = record { net = net; asked = [] }

      unasked : Clean domain start
      unasked = tt

      first :
          (host : Text)
          → (validate_url world policy none url start).0 ≡ ok host
          → Clean domain
              (fetch_hops world policy
                (suc policy.max_redirects)
                (registered_domain host)
                url
                (validate_url world policy none url start).1).1
      first host h =
          let (same, scheme, there, _, safe) = validate_url-eq-ok none url start h in
          rw same (
            fetch_hops-Clean domain (registered_domain-truthy (host_of world policy url) there)
              (suc policy.max_redirects) url _
              (
                validate_url-Clean domain none url start unasked,
                record { scheme = scheme; has_host = there; on_domain = refl; safe = safe },
              ))
