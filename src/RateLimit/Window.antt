-- ===== src/RateLimit/Window.antt =====
-- How many attempts of a window pass.
use ozzb2b.Shared.{
  ℕ, zero, suc, ◌+◌, ◌-◌, ◌<◌, min, ◌≡◌, refl, not, Option, ltb, ◌==◌, nat_eq, Text, ok,
  if◌then◌else◌, arith, Bool-cases, inl, inr,
}
use ozzb2b.RateLimit.{Redis, ttl_or, window_of, key_of, start_window, record_attempt, decide, hit}

-- What Redis documents of a counter that does not expire meanwhile: INCR adds one and replies with
-- the new value, EXPIRE and TTL leave it, and none of them raises.
pub record Counts {S : Type 0} (redis : Redis S) (key : Text) (view : S → ℕ) : Type 0 where
  pub incr_reply : (s : S) → (redis.incr key s).0 ≡ ok (suc (view s))
  pub incr_adds : (s : S) → view (redis.incr key s).1 ≡ suc (view s)
  pub expire_reply : (w : ℕ) (s : S) → (redis.expire key w s).0 ≡ ok tt
  pub expire_keeps : (w : ℕ) (s : S) → view (redis.expire key w s).1 ≡ view s
  pub ttl_reply : (s : S) → (t : Option ℕ) × ((redis.ttl key s).0 ≡ ok t)
  pub ttl_keeps : (s : S) → view (redis.ttl key s).1 ≡ view s

module _ {S : Type 0} (redis : Redis S) (window_seconds : ℕ) (endpoint scope : Text)
    (limit : ℕ) where
  -- how many of `n` attempts in a row are allowed
  pub allowed_of : ℕ → S → ℕ
  allowed_of zero s = 0
  allowed_of (suc n) s =
      (if (hit redis window_seconds endpoint scope limit s).0.allowed then 1 else 0)
      + allowed_of n (hit redis window_seconds endpoint scope limit s).1

  module _ (view : S → ℕ) (counts : Counts redis (key_of endpoint scope) view) where
    started :
        (w n : ℕ) (s : S)
        → ((start_window redis (key_of endpoint scope) w n s).0 ≡ ok tt)
          × (view (start_window redis (key_of endpoint scope) w n s).1 ≡ view s)
    unfolding start_window
    started w n s = elim (Bool-cases (n == 1)) [
      | inl e ↦ rw e (counts.expire_reply w s, counts.expire_keeps w s)
      | inr e ↦ rw e (refl, refl)
    ]

    attempt :
        (w : ℕ) (s : S)
        → ((t : ℕ) × ((record_attempt redis (key_of endpoint scope) w s).0 ≡ ok (suc (view s), t)))
          × (view (record_attempt redis (key_of endpoint scope) w s).1 ≡ suc (view s))
    unfolding record_attempt
    attempt w s =
        let key = key_of endpoint scope in
        let s1 = (redis.incr key s).1 in
        let s2 = (start_window redis key w (suc (view s)) s1).1 in
        let (t, reply) = counts.ttl_reply s2 in
        rw (counts.incr_reply s) (
          rw (started w (suc (view s)) s1).0 (
            rw reply (
              (ttl_or w t, refl),
              ground
                  (arith, counts.ttl_keeps s2, (started w (suc (view s)) s1).1, counts.incr_adds s),
            )))

    hit_lem :
        (s : S)
        → 0 < limit
        → ((hit redis window_seconds endpoint scope limit s).0.allowed
            ≡ not (ltb limit (suc (view s))))
          × (view (hit redis window_seconds endpoint scope limit s).1 ≡ suc (view s))
    unfolding hit decide
    hit_lem s h =
        let ((t, got), more) = attempt (window_of window_seconds) s in
        elim (Bool-cases (limit == 0)) [
          | inl e ↦ absurd (ground arith)
          | inr e ↦ rw (e, got) (ground arith, more)
        ]

    -- Of any number of attempts in one window exactly the first `limit` pass, those counted before
    -- included, for a limit that is not zero and a counter that Redis keeps as it documents.
    pub allowed_of_lem : (n : ℕ) (s : S) → 0 < limit → allowed_of n s ≡ min n (limit - view s)
    unfolding allowed_of
    allowed_of_lem zero s h = omega arith
    allowed_of_lem (suc n) s h =
        let (passes, more) = hit_lem s h in
        ground (
          arith,
          passes,
          more,
          allowed_of_lem n (hit redis window_seconds endpoint scope limit s).1 h,
        )
