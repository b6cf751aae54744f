-- ===== src/RateLimit.antt =====
-- The fixed-window rate limiter and the address it counts by:
-- apps/api/src/ozzb2b_api/security/rate_limit.py. Redis is an argument.
pub mod Window
pub mod Address
mod Tests
use ozzb2b.Shared.{
  ℕ, ◌+◌, ◌-◌, Bool, true, false, not, ◌&&◌, ◌||◌, Option, none, some, List, [], ◌∷◌, ◌++◌, map,
  ltb, ◌==◌, nat_eq, text_eq, if◌then◌else◌, Text, codes, lower, strip, split, is_truthy, or_empty,
  length, get_or, find, select, Exec, Result, ok, err, ◌>>=◌, ◌>>◌, pure, gets, guard,
}
use ozzb2b.Errors.{Error, error, http}

-- The three commands of the client, on a state of the server; any of them may raise. A reply `none`
-- to TTL is a negative one.
pub record Redis (S : Type 0) : Type 0 where
  pub incr : Text → Exec S Text ℕ
  pub expire : Text → ℕ → Exec S Text Unit
  pub ttl : Text → Exec S Text (Option ℕ)

pub record RateLimitResult : Type 0 where
  pub allowed : Bool
  pub remaining : ℕ
  pub retry_after_seconds : ℕ

pub record LimitSettings : Type 0 where
  pub rate_limit_enabled : Bool
  pub rate_limit_window_seconds : ℕ
  pub trusted_proxy_count : ℕ

abbrev pub ttl_or : ℕ → Option ℕ → ℕ
ttl_or window none = window
ttl_or window (some t) = t

-- `max(1, window_seconds)`
abbrev pub window_of : ℕ → ℕ
window_of w = if w == 0 then 1 else w

abbrev pub key_of : Text → Text → Text
key_of endpoint scope = codes "rl:" ++ endpoint ++ codes ":" ++ scope

module _ {S : Type 0} (redis : Redis S) where
  pub start_window : Text → ℕ → ℕ → Exec S Text Unit
  start_window key window n = if n == 1 then redis.expire key window else pure tt

  -- the `try` block: the count and the seconds left
  pub record_attempt : Text → ℕ → Exec S Text (ℕ × ℕ)
  record_attempt key window = do
    n ← redis.incr key
    start_window key window n
    t ← redis.ttl key
    pure (n, ttl_or window t)

  -- what is answered after the `try` block, and by `except`
  pub decide : ℕ → Result Text (ℕ × ℕ) → RateLimitResult
  decide limit (err reason) = record { allowed = true; remaining = limit; retry_after_seconds = 0 }
  decide limit (ok (n, t)) =
      if ltb limit n
      then record { allowed = false; remaining = 0; retry_after_seconds = t }
      else record { allowed = true; remaining = limit - n; retry_after_seconds = t }

  pub hit : ℕ → Text → Text → ℕ → S → RateLimitResult × S
  hit window_seconds endpoint scope limit s =
      if limit == 0
      then (record { allowed = true; remaining = 0; retry_after_seconds = 0 }, s)
      else (
        decide limit (record_attempt (key_of endpoint scope) (window_of window_seconds) s).0,
        (record_attempt (key_of endpoint scope) (window_of window_seconds) s).1,
      )

-- `[p.strip() for p in forwarded.split(",") if p.strip()]`
pub chain_of : Text → List Text
chain_of forwarded = map strip (select (λ p. is_truthy (strip p)) (split b',' forwarded))

abbrev pub header : List (Text × Text) → Text → Option Text
header headers name = elim (find (λ (h : Text × Text). h.0 == name) headers) [
  | none ↦ none
  | some h ↦ some h.1
]

-- `headers.get("x-forwarded-for") or headers.get("X-Forwarded-For")`
pub forwarded_for : List (Text × Text) → Text
forwarded_for headers =
    if is_truthy (or_empty (header headers (codes "x-forwarded-for")))
    then or_empty (header headers (codes "x-forwarded-for"))
    else or_empty (header headers (codes "X-Forwarded-For"))

-- `fallback or "unknown"`
abbrev pub fallback_or : Option Text → Text
fallback_or fallback = if is_truthy (or_empty fallback) then or_empty fallback else codes "unknown"

-- `chain[max(0, len(chain) - trusted_proxy_count - 1)]`, or the fallback for an empty chain
pub address_in : List Text → Option Text → ℕ → Text
address_in chain fallback trusted_proxy_count =
    let candidate = get_or chain (length chain - trusted_proxy_count - 1) [] in
    if is_truthy candidate then candidate else fallback_or fallback

pub client_ip : List (Text × Text) → Option Text → ℕ → Text
client_ip headers fallback trusted_proxy_count =
    if ltb 0 trusted_proxy_count
    then address_in (chain_of (forwarded_for headers)) fallback trusted_proxy_count
    else fallback_or fallback

module _ {S : Type 0} (redis : Redis S) (cfg : LimitSettings) where
  -- one turn of the loop over the scopes
  pub throttle : Text → ℕ → Text → Text → Exec S Error Unit
  throttle endpoint limit scope_name scope_value s =
      if is_truthy scope_value
      then (do
        outcome ← λ s. (
          ok
              (hit redis cfg.rate_limit_window_seconds endpoint
                (scope_name ++ codes ":" ++ scope_value) limit s).0,
          (hit redis cfg.rate_limit_window_seconds endpoint (scope_name ++ codes ":" ++ scope_value)
              limit s).1,
        )
        guard outcome.allowed (error (http 429) "слишком много попыток, попробуйте позже"))
          s
      else (ok tt, s)

  -- the request's headers, with the names in lower case, and the address of the socket's peer
  unfoldable pub enforce_rate_limit :
      List (Text × Text) → Option Text → Text → ℕ → Option Text → Exec S Error Unit
  enforce_rate_limit headers host endpoint limit user_scope s =
      if not cfg.rate_limit_enabled || limit == 0
      then (ok tt, s)
      else (do
        throttle endpoint limit (codes "ip") (client_ip headers host cfg.trusted_proxy_count)
        throttle endpoint limit (codes "user") (or_empty user_scope))
          s
