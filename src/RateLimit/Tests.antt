-- ===== src/RateLimit/Tests.antt =====
-- Runs of the limiter against a counter, and its theorems applied there.
use ozzb2b.Shared.{
  ℕ, suc, ◌+◌, ◌-◌, ◌<◌, min, ◌≡◌, refl, Bool, true, false, Option, none, some, List, [], ◌∷◌, ◌++◌,
  ◌==◌, nat_eq, text_eq, Text, codes, length, get_or, Exec, Result, ok, err, arith,
}
use ozzb2b.RateLimit.{Redis, key_of, chain_of, forwarded_for, client_ip}
use ozzb2b.RateLimit.Window.{Counts, allowed_of, allowed_of_lem}
use ozzb2b.RateLimit.Address.{client_ip-append}

-- a server with one counter
abbrev redis : Redis ℕ
redis = record {
  incr = λ key s. (ok (suc s), suc s);
  expire = λ key w s. (ok tt, s);
  ttl = λ key s. (ok (some 60), s);
}

redis-Counts : Counts redis (key_of (codes "login") (codes "ip:x")) (λ s. s)
redis-Counts = record {
  incr_reply = λ s. refl;
  incr_adds = λ s. refl;
  expire_reply = λ w s. refl;
  expire_keeps = λ w s. refl;
  ttl_reply = λ s. (some 60, refl);
  ttl_keeps = λ s. refl;
}

allowed_of_lem_example : allowed_of redis 300 (codes "login") (codes "ip:x") 10 25 3 ≡ 7
allowed_of_lem_example =
    allowed_of_lem redis 300 (codes "login") (codes "ip:x") 10 (λ s. s) redis-Counts 25 3
      (omega arith)

abbrev headers : List (Text × Text)
headers = (codes "x-forwarded-for", codes "1.1.1.1, 2.2.2.2,9.9.9.9") ∷ []

header_there : forwarded_for headers ≡ codes "1.1.1.1, 2.2.2.2" ++ b',' ∷ codes "9.9.9.9"
unfolding forwarded_for ozzb2b.Shared.find ozzb2b.Shared.list_beq
header_there = refl

one_hop : length (chain_of (codes "9.9.9.9")) ≡ 1
unfolding chain_of ozzb2b.Shared.select ozzb2b.Shared.split ozzb2b.Shared.strip ozzb2b.Shared.rstrip
    ozzb2b.Shared.lstrip ozzb2b.Shared.is_space
one_hop = refl

sent_chain : chain_of (codes "1.1.1.1, 2.2.2.2") ≡ codes "1.1.1.1" ∷ codes "2.2.2.2" ∷ []
unfolding chain_of ozzb2b.Shared.select ozzb2b.Shared.split ozzb2b.Shared.strip ozzb2b.Shared.rstrip
    ozzb2b.Shared.lstrip ozzb2b.Shared.is_space
sent_chain = refl

sent_something : 0 < length (chain_of (codes "1.1.1.1, 2.2.2.2"))
sent_something = rw sent_chain (omega arith)

client_ip-append_example :
    client_ip headers none 1
    ≡ get_or
        (chain_of (codes "1.1.1.1, 2.2.2.2"))
        (length (chain_of (codes "1.1.1.1, 2.2.2.2")) - 1)
        []
client_ip-append_example =
    client_ip-append headers none (codes "1.1.1.1, 2.2.2.2") (codes "9.9.9.9") 1 (omega arith)
      header_there one_hop sent_something
