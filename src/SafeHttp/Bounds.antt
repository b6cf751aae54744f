-- ===== src/SafeHttp/Bounds.antt =====
-- How many requests a fetch makes and how much it keeps.
use ozzb2b.Shared.{
  is_truthy, guard, ℕ, zero, suc, ◌+◌, ◌≡◌, ◌≤◌, Bool, true, false, Option, none, some, List, [],
  ◌∷◌, ◌++◌, Text, ltb, length, length-append, Exec, Result, ok, err, bind-holds, arith, Bool-cases,
  inl, inr, count, guard, all, if◌then◌else◌, bind_returns,
}
use ozzb2b.Errors.{Error, error, unsafe_url}
use ozzb2b.SafeHttp.{
  SafeHttpPolicy, Net, NetEvent, looked_up, requested, Wire, Reply, redirect, body, bad_status,
  no_answer, resolve_host, host_of, check_static, validate_url, read_body, send_get, follow,
  fetch_hops, fetch_text, is_safe_ip, registered_domain,
}
use ozzb2b.SafeHttp.Vetting.{check_static_reads}

pub is_request : NetEvent → Bool
is_request (looked_up h addrs) = false
is_request (requested url) = true

module _ {N : Type 0} (world : Net N) (policy : SafeHttpPolicy) where
  -- the requests made so far
  abbrev pub made : Wire N → ℕ
  made w = count is_request w.asked

  -- the chunks one after the other
  pub joined : List Text → Text
  joined [] = []
  joined (chunk ∷ chunks) = chunk ++ joined chunks

  -- The loop that stops at the first byte too many agrees with a check of the whole body: from a
  -- count within the bound, it returns the joined chunks when they and the count fit the bound, and
  -- otherwise it raises.
  pub read_body-joined :
      (received : ℕ) (chunks : List Text)
      → received ≤ policy.max_bytes
      → read_body world policy received chunks ≡ (
          if ltb policy.max_bytes (received + length (joined chunks))
          then err (error unsafe_url "response body exceeded")
          else ok (joined chunks))
  unfolding read_body joined
  read_body-joined received [] b = ground arith
  read_body-joined received (chunk ∷ chunks) b =
      let rest = read_body-joined (received + length chunk) chunks in
      rw (length-append chunk (joined chunks))
        (elim (Bool-cases (ltb policy.max_bytes (received + length chunk))) [
          | inl e ↦ ground (arith, e)
          | inr e ↦
              let rest = read_body-joined (received + length chunk) chunks (ground (arith, e)) in
              rw e (rw rest (ground arith))
        ])

  -- at most one more than the bound
  abbrev Within : ℕ → Wire N → Type 0
  Within n w = made w ≤ n

  resolve_host-made : (host : Text) (w : Wire N) → made (resolve_host world host w).1 ≡ made w
  unfolding resolve_host count is_request
  resolve_host-made host w = ground arith

  validate_url-Within :
      (n : ℕ) (expected : Option Text) (url : Text) (w : Wire N)
      → Within n w
      → Within n (validate_url world policy expected url w).1
  unfolding validate_url
  validate_url-Within n expected url w b =
      bind-holds (Within n) (check_static world policy expected url) _ w
        (rw (check_static_reads world policy expected url w) b)
        λ _ _.
          bind-holds (Within n) (resolve_host world (host_of world policy url)) _ _ looked
            λ addrs _.
              bind-holds (Within n) (guard (all (is_safe_ip world) addrs) _) _ _ looked
                λ _ _. looked
    where
      looked :
          Within n
            (resolve_host world
              (host_of world policy url)
              (check_static world policy expected url w).1).1
      looked =
          rw (check_static_reads world policy expected url w)
            (rw (resolve_host-made (host_of world policy url) w) b)

  follow-Within :
      (n m : ℕ) (next : Text → Exec (Wire N) Error Text) (domain url : Text) (reply : Reply)
      (w : Wire N)
      → ((u : Text) (s : Wire N) → Within n s → Within m (next u s).1)
      → n ≤ m
      → Within n w
      → Within m (follow world policy next domain url reply w).1
  unfolding follow
  follow-Within n m next domain url (redirect none) w k le b = omega (arith, b, le)
  follow-Within n m next domain url (redirect (some location)) w k le b =
      let vetted = validate_url-Within n (some domain) (world.join_url url location) w b in
      bind-holds (Within m)
        (guard (is_truthy location) (error unsafe_url "redirect with no Location header")) _ w
        (omega (arith, b, le))
        λ _ _.
          bind-holds (Within m)
            (validate_url world policy (some domain) (world.join_url url location)) _ w
            (omega (arith, vetted, le)) λ _ _. k (world.join_url url location) _ vetted
  follow-Within n m next domain url (body chunks) w k le b = omega (arith, b, le)
  follow-Within n m next domain url (bad_status code) w k le b = omega (arith, b, le)
  follow-Within n m next domain url no_answer w k le b = omega (arith, b, le)

  send_get-Within :
      (n : ℕ) (url : Text) (w : Wire N)
      → Within n w
      → Within (suc n) (send_get world policy url w).1
  unfolding send_get count is_request
  send_get-Within n url w b = omega (arith, b)

  fetch_hops-Within :
      (n hops : ℕ) (domain url : Text) (w : Wire N)
      → Within n w
      → Within (hops + n) (fetch_hops world policy hops domain url w).1
  unfolding fetch_hops
  fetch_hops-Within n zero domain url w b = omega (arith, b)
  fetch_hops-Within n (suc hops) domain url w b =
      bind-holds (Within (suc hops + n)) (send_get world policy url) _ w
        (omega (arith, send_get-Within n url w b))
        λ reply _.
          follow-Within (suc n) (suc hops + n) (fetch_hops world policy hops domain) domain url
            reply _ (λ u s le. omega (arith, fetch_hops-Within (suc n) hops domain u s le))
            (omega arith) (send_get-Within n url w b)

  read_body-length :
      (chunks : List Text) {page : Text}
      → read_body world policy 0 chunks ≡ ok page
      → length page ≤ policy.max_bytes
  read_body-length chunks h = ground (arith, read_body-joined 0 chunks (ground arith))

  -- a page that is returned fits the bound
  abbrev Fits : Result Error Text → Type 0
  Fits r = (page : Text) → r ≡ ok page → length page ≤ policy.max_bytes

  follow-Fits :
      (next : Text → Exec (Wire N) Error Text) (domain url : Text) (reply : Reply) (w : Wire N)
      → ((u : Text) (s : Wire N) → Fits (next u s).0)
      → Fits (follow world policy next domain url reply w).0
  unfolding follow
  follow-Fits next domain url (redirect none) w k page h = cc
  follow-Fits next domain url (redirect (some location)) w k page h =
      let (_, _, given) =
        bind_returns
          (guard (is_truthy location) (error unsafe_url "redirect with no Location header")) _ w
          h in
      let (_, _, rest) =
        bind_returns (validate_url world policy (some domain) (world.join_url url location)) _ w
          given in
      k (world.join_url url location) _ page rest
  follow-Fits next domain url (body chunks) w k page h = read_body-length chunks h
  follow-Fits next domain url (bad_status code) w k page h = cc
  follow-Fits next domain url no_answer w k page h = cc

  fetch_hops-Fits :
      (hops : ℕ) (domain url : Text) (w : Wire N)
      → Fits (fetch_hops world policy hops domain url w).0
  unfolding fetch_hops
  fetch_hops-Fits zero domain url w page h = cc
  fetch_hops-Fits (suc hops) domain url w page h =
      let (reply, _, rest) = bind_returns (send_get world policy url) _ w h in
      follow-Fits (fetch_hops world policy hops domain) domain url reply _
        (fetch_hops-Fits hops domain) page rest

  -- A fetch ends after at most max_redirects + 1 requests, whatever the servers answer, and a page it
  -- returns is at most max_bytes long.
  pub fetch_text_bounded :
      (url : Text) (net : N)
      → (made (fetch_text world policy url (record { net = net; asked = [] })).1
          ≤ policy.max_redirects + 1)
        × ((page : Text)
            → (fetch_text world policy url (record { net = net; asked = [] })).0 ≡ ok page
            → length page ≤ policy.max_bytes)
  unfolding fetch_text count
  fetch_text_bounded url net = (
    bind-holds (Within (policy.max_redirects + 1)) (validate_url world policy none url) _ start
        (omega (arith, unasked)) λ host _. hopped host,
    λ page h.
        let (host, _, rest) = bind_returns (validate_url world policy none url) _ start h in
        fetch_hops-Fits (suc policy.max_redirects) (registered_domain host) url _ page rest,
  )
    where
      start : Wire N
      start = record { net = net; asked = [] }

      unasked : Within 0 (validate_url world policy none url start).1
      unasked = validate_url-Within 0 none url start (ground arith)

      hopped :
          (host : Text)
          → Within
              (policy.max_redirects + 1)
              (fetch_hops world policy
                (suc policy.max_redirects)
                (registered_domain host)
                url
                (validate_url world policy none url start).1).1
      hopped host =
          let few =
            fetch_hops-Within 0 (suc policy.max_redirects) (registered_domain host) url
              (validate_url world policy none url start).1 unasked in
          omega (arith, few)
