-- ===== src/SafeHttp/Tests.antt =====
-- Fetches on a small network, and the theorems on fetches applied there.
use ozzb2b.Shared.{
  ℕ, zero, suc, ◌+◌, ◌≡◌, ◌≤◌, refl, Bool, true, false, Option, none, some, List, [], ◌∷◌, ◌==◌,
  text_eq, Text, codes, leb, ltb, length, Result, ok, err, if◌then◌else◌, arith,
}
use ozzb2b.Errors.{error, unsafe_url}
use ozzb2b.SafeHttp.{
  SafeHttpPolicy, IpFlags, Reply, redirect, body, Net, NetEvent, looked_up, requested, Wire,
  fetch_text, read_body, registered_domain, host_of,
}
use ozzb2b.SafeHttp.Vetting.{AllVetted, fetch_text_vetted}
use ozzb2b.SafeHttp.Bounds.{made, fetch_text_bounded}

abbrev public_address : IpFlags
public_address = record {
  is_loopback = false;
  is_private = false;
  is_link_local = false;
  is_multicast = false;
  is_reserved = false;
  is_unspecified = false;
}

-- the first page redirects to the host `www.a.ru` while `redirects` are left, and `evil` is loopback
abbrev small_net : Net ℕ
small_net = record {
  scheme_of = λ url. codes "HTTPS";
  hostname_of = λ url. some url;
  ip_address = λ addr.
      if addr == codes "evil"
      then some (record public_address { is_loopback = true })
      else some public_address;
  join_url = λ base location. location;
  resolve = λ host n. (some (host ∷ []), n);
  get = λ url n. elim n [
    | zero ↦ (body (codes "hel" ∷ codes "lo" ∷ []), 0)
    | suc m ↦ (redirect (some (codes "www.a.ru")), m)
  ];
}

abbrev policy : SafeHttpPolicy
policy = record { allow_http = false; max_redirects = 1; max_bytes = 5 }

abbrev start : ℕ → Wire ℕ
start redirects = record { net = redirects; asked = [] }

-- a redirect within the domain is followed
fetched : (fetch_text small_net policy (codes "a.ru") (start 1)).0 ≡ ok (codes "hello")
unfolding fetch_text ozzb2b.SafeHttp.validate_url ozzb2b.SafeHttp.check_static
    ozzb2b.SafeHttp.is_allowed_scheme ozzb2b.Shared.list_beq ozzb2b.Shared.lower
    ozzb2b.Shared.lower_char host_of ozzb2b.SafeHttp.is_on_domain ozzb2b.SafeHttp.resolve_host
    ozzb2b.Shared.all ozzb2b.SafeHttp.is_safe_ip ozzb2b.SafeHttp.is_safe_flags
    ozzb2b.SafeHttp.fetch_hops ozzb2b.SafeHttp.send_get ozzb2b.SafeHttp.follow registered_domain
    ozzb2b.Shared.split ozzb2b.Shared.split_from ozzb2b.SafeHttp.drop_dots ozzb2b.SafeHttp.last_two
    read_body
fetched = refl

requests :
    (fetch_text small_net policy (codes "a.ru") (start 1)).1.asked
    ≡ requested (codes "www.a.ru")
      ∷ looked_up (codes "www.a.ru") (codes "www.a.ru" ∷ [])
      ∷ requested (codes "a.ru")
      ∷ looked_up (codes "a.ru") (codes "a.ru" ∷ [])
      ∷ []
unfolding fetch_text ozzb2b.SafeHttp.validate_url ozzb2b.SafeHttp.check_static
    ozzb2b.SafeHttp.is_allowed_scheme ozzb2b.Shared.list_beq ozzb2b.Shared.lower
    ozzb2b.Shared.lower_char host_of ozzb2b.SafeHttp.is_on_domain ozzb2b.SafeHttp.resolve_host
    ozzb2b.Shared.all ozzb2b.SafeHttp.is_safe_ip ozzb2b.SafeHttp.is_safe_flags
    ozzb2b.SafeHttp.fetch_hops ozzb2b.SafeHttp.send_get ozzb2b.SafeHttp.follow registered_domain
    ozzb2b.Shared.split ozzb2b.Shared.split_from ozzb2b.SafeHttp.drop_dots ozzb2b.SafeHttp.last_two
    read_body
requests = refl

-- two redirects are one too many, a loopback address is not asked, and the domain is not left
two_redirects :
    (fetch_text small_net policy (codes "a.ru") (start 2)).0
    ≡ err (error unsafe_url "too many redirects")
unfolding fetch_text ozzb2b.SafeHttp.validate_url ozzb2b.SafeHttp.check_static
    ozzb2b.SafeHttp.is_allowed_scheme ozzb2b.Shared.list_beq ozzb2b.Shared.lower
    ozzb2b.Shared.lower_char host_of ozzb2b.SafeHttp.is_on_domain ozzb2b.SafeHttp.resolve_host
    ozzb2b.Shared.all ozzb2b.SafeHttp.is_safe_ip ozzb2b.SafeHttp.is_safe_flags
    ozzb2b.SafeHttp.fetch_hops ozzb2b.SafeHttp.send_get ozzb2b.SafeHttp.follow registered_domain
    ozzb2b.Shared.split ozzb2b.Shared.split_from ozzb2b.SafeHttp.drop_dots ozzb2b.SafeHttp.last_two
    read_body
two_redirects = refl

loopback :
    (fetch_text small_net policy (codes "evil") (start 0)).0
    ≡ err (error unsafe_url "hostname resolves to a forbidden address")
unfolding fetch_text ozzb2b.SafeHttp.validate_url ozzb2b.SafeHttp.check_static
    ozzb2b.SafeHttp.is_allowed_scheme ozzb2b.Shared.list_beq ozzb2b.Shared.lower
    ozzb2b.Shared.lower_char host_of ozzb2b.SafeHttp.is_on_domain ozzb2b.SafeHttp.resolve_host
    ozzb2b.Shared.all ozzb2b.SafeHttp.is_safe_ip ozzb2b.SafeHttp.is_safe_flags
    ozzb2b.SafeHttp.fetch_hops ozzb2b.SafeHttp.send_get ozzb2b.SafeHttp.follow registered_domain
    ozzb2b.Shared.split ozzb2b.Shared.split_from ozzb2b.SafeHttp.drop_dots ozzb2b.SafeHttp.last_two
    read_body
loopback = refl

left :
    (fetch_text small_net policy (codes "b.ru") (start 1)).0
    ≡ err (error unsafe_url "redirect leaves the original domain")
unfolding fetch_text ozzb2b.SafeHttp.validate_url ozzb2b.SafeHttp.check_static
    ozzb2b.SafeHttp.is_allowed_scheme ozzb2b.Shared.list_beq ozzb2b.Shared.lower
    ozzb2b.Shared.lower_char host_of ozzb2b.SafeHttp.is_on_domain ozzb2b.SafeHttp.resolve_host
    ozzb2b.Shared.all ozzb2b.SafeHttp.is_safe_ip ozzb2b.SafeHttp.is_safe_flags
    ozzb2b.SafeHttp.fetch_hops ozzb2b.SafeHttp.send_get ozzb2b.SafeHttp.follow registered_domain
    ozzb2b.Shared.split ozzb2b.Shared.split_from ozzb2b.SafeHttp.drop_dots ozzb2b.SafeHttp.last_two
    read_body
left = refl

-- two companies under one public suffix share the domain that is compared
shared_suffix : registered_domain (codes "shop.co.uk") ≡ registered_domain (codes "evil.co.uk")
unfolding registered_domain ozzb2b.Shared.split ozzb2b.Shared.split_from ozzb2b.SafeHttp.drop_dots
    ozzb2b.SafeHttp.last_two ozzb2b.Shared.lower ozzb2b.Shared.lower_char
shared_suffix = refl

fetch_text_bounded_example :
    (made small_net policy (fetch_text small_net policy (codes "a.ru") (start 1)).1
      ≤ policy.max_redirects + 1)
    × ((page : Text)
        → (fetch_text small_net policy (codes "a.ru") (start 1)).0 ≡ ok page
        → length page ≤ policy.max_bytes)
fetch_text_bounded_example = fetch_text_bounded small_net policy (codes "a.ru") 1

fetch_text_vetted_example :
    AllVetted small_net policy
      (registered_domain (host_of small_net policy (codes "a.ru")))
      (fetch_text small_net policy (codes "a.ru") (start 1)).1.asked
fetch_text_vetted_example = fetch_text_vetted small_net policy (codes "a.ru") 1
