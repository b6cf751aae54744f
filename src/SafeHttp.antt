-- ===== src/SafeHttp.antt =====
-- The fetch of a page that a user names: apps/api/src/ozzb2b_api/security/safe_http.py. The parsing
-- of URLs and addresses, name resolution and the HTTP client are arguments. That
-- the parsing of a malformed URL raises is left out, and so are the timeouts.
pub mod Vetting
pub mod Bounds
pub mod Tests
use ozzb2b.Shared.{
  ℕ, zero, suc, ◌+◌, Bool, true, false, not, ◌&&◌, ◌||◌, Option, none, some, List, [], ◌∷◌, ◌++◌,
  ◌==◌, nat_eq, text_eq, leb, ltb, if◌then◌else◌, Text, codes, lower, split, is_truthy, length, all,
  Exec, Result, ok, err, ◌>>=◌, ◌>>◌, pure, raise, lift, guard, modify, or_raise,
}
use ozzb2b.Errors.{Error, error, unsafe_url}

pub record SafeHttpPolicy : Type 0 where
  pub allow_http : Bool
  pub max_redirects : ℕ
  pub max_bytes : ℕ

-- what `ipaddress` says of an address
pub record IpFlags : Type 0 where
  pub is_loopback : Bool
  pub is_private : Bool
  pub is_link_local : Bool
  pub is_multicast : Bool
  pub is_reserved : Bool
  pub is_unspecified : Bool

-- how a GET ends: a redirect with its Location, a body in chunks, another status, or no answer
pub data Reply : Type 0 where
  redirect : Option Text → Reply
  body : List Text → Reply
  bad_status : ℕ → Reply
  no_answer : Reply

-- urllib, ipaddress, socket and httpx, on a state of the network; `resolve` gives `none` when it raises
pub record Net (N : Type 0) : Type 0 where
  pub scheme_of : Text → Text
  pub hostname_of : Text → Option Text
  pub ip_address : Text → Option IpFlags
  pub join_url : Text → Text → Text
  pub resolve : Text → N → Option (List Text) × N
  pub get : Text → N → Reply × N

-- what the fetch asked of the network
pub data NetEvent : Type 0 where
  looked_up : Text → List Text → NetEvent
  requested : Text → NetEvent

-- the network and what was asked of it, newest first
pub record Wire (N : Type 0) : Type 0 where
  pub net : N
  pub asked : List NetEvent

pub is_safe_flags : Option IpFlags → Bool
is_safe_flags none = false
is_safe_flags (some ip) =
    not (ip.is_loopback || (ip.is_private || ip.is_link_local))
    && not (ip.is_multicast || (ip.is_reserved || ip.is_unspecified))

-- `s.rstrip(".")`
pub drop_dots : Text → Text
drop_dots [] = []
drop_dots (c ∷ s) =
    let rest = drop_dots s in if c == b'.' && not (is_truthy rest) then [] else c ∷ rest

-- the last two labels, joined again
pub last_two : List Text → Text
last_two [] = []
last_two (a ∷ []) = a
last_two (a ∷ b ∷ []) = a ++ codes "." ++ b
last_two (a ∷ b ∷ c ∷ rest) = last_two (b ∷ c ∷ rest)

pub registered_domain : Text → Text
registered_domain host =
    if leb 2 (length (split b'.' (drop_dots (lower host))))
    then last_two (split b'.' (drop_dots (lower host)))
    else lower host

module _ {N : Type 0} (world : Net N) where
  pub is_safe_ip : Text → Bool
  is_safe_ip addr = is_safe_flags (world.ip_address addr)

  pub resolve_host : Text → Exec (Wire N) Error (List Text)
  resolve_host host w = elim (world.resolve host w.net).0 [
    | none ↦ (
      err (error unsafe_url "could not resolve host"),
      record w { net = (world.resolve host w.net).1 },
    )
    | some addrs ↦ (
      ok addrs,
      record { net = (world.resolve host w.net).1; asked = looked_up host addrs ∷ w.asked },
    )
  ]

  module _ (policy : SafeHttpPolicy) where
    pub is_allowed_scheme : Text → Bool
    is_allowed_scheme scheme =
        scheme == codes "https" || (scheme == codes "http" && policy.allow_http)

    -- `parts.hostname or ""`
    pub host_of : Text → Text
    host_of url = elim (world.hostname_of url) [ none ↦ [] | some h ↦ h ]

    -- `expected_domain and _registered_domain(host) != expected_domain`
    pub is_on_domain : Option Text → Text → Bool
    is_on_domain none host = true
    is_on_domain (some domain) host = not (is_truthy domain) || registered_domain host == domain

    -- the checks that need no network, which raise one after the other
    pub check_static : Option Text → Text → Exec (Wire N) Error Unit
    check_static expected url = do
      guard (is_allowed_scheme (lower (world.scheme_of url)))
          (error unsafe_url "https is required for outbound fetches")
      guard (is_truthy (host_of url)) (error unsafe_url "URL has no hostname")
      guard (is_on_domain expected (host_of url))
          (error unsafe_url "redirect leaves the original domain")

    pub validate_url : Option Text → Text → Exec (Wire N) Error Text
    validate_url expected url = do
      check_static expected url
      addrs ← resolve_host (host_of url)
      guard (all is_safe_ip addrs) (error unsafe_url "hostname resolves to a forbidden address")
      pure (host_of url)

    -- the loop over the chunks, with the bytes received so far
    pub read_body : ℕ → List Text → Result Error Text
    read_body received [] = ok []
    read_body received (chunk ∷ chunks) =
        let rest = read_body (received + length chunk) chunks in
        if ltb policy.max_bytes (received + length chunk)
        then err (error unsafe_url "response body exceeded")
        else (elim rest [ ok s ↦ ok (chunk ++ s) | err e ↦ err e ])

    pub send_get : Text → Exec (Wire N) Error Reply
    send_get url w = (
      ok (world.get url w.net).0,
      record { net = (world.get url w.net).1; asked = requested url ∷ w.asked },
    )

    -- what a reply leads to, given what a redirect goes on with
    pub follow : (Text → Exec (Wire N) Error Text) → Text → Text → Reply → Exec (Wire N) Error Text
    follow next domain current (redirect none) =
        raise (error unsafe_url "redirect with no Location header")
    follow next domain current (redirect (some location)) = do
      guard (is_truthy location) (error unsafe_url "redirect with no Location header")
      validate_url (some domain) (world.join_url current location)
      next (world.join_url current location)
    follow next domain current (body chunks) = lift (read_body 0 chunks)
    follow next domain current (bad_status code) =
        raise (error unsafe_url "upstream returned an error")
    follow next domain current no_answer = raise (error unsafe_url "transport error")

    -- `for _hop in range(max_redirects + 1)`, with the rounds left
    pub fetch_hops : ℕ → Text → Text → Exec (Wire N) Error Text
    fetch_hops zero domain current = raise (error unsafe_url "too many redirects")
    fetch_hops (suc hops) domain current = do
      reply ← send_get current
      follow (fetch_hops hops domain) domain current reply

    -- the bytes of the page; their decoding with replacements is left out
    pub fetch_text : Text → Exec (Wire N) Error Text
    fetch_text url = do
      host ← validate_url none url
      fetch_hops (suc policy.max_redirects) (registered_domain host) url
