-- ===== src/Auth/Keeping.antt =====
-- Rotations keep the account tables consistent: `rotate_refresh` of services/auth.py.
use ozzb2b.Shared.{
  ℕ, ◌≡◌, Option, none, some, ◌==◌, nat_eq, text_eq, Text, count, find, arith, Bool-cases,
  Option-cases, inl, inr, ltb, is_some, bind-holds, guard, or_raise,
}
use ozzb2b.Errors.{error, invalid_refresh_token}
use ozzb2b.Domain.{User}
use ozzb2b.Auth.{
  AuthDb, RefreshToken, Crypto, TokenSettings, Draw, live_in, has_hash, revoke_where, user_by_id,
  new_refresh, issue_tokens, rotate_for, rotate_live, reject_reused, rotate_found, rotate_refresh,
}
use ozzb2b.Auth.Invariant.{
  IsConsistent, token_by_hash_lem, count-revoke_one, revoke_where-IsConsistent,
  add_refresh-IsConsistent,
}

module _ (crypto : Crypto) (cfg : TokenSettings) where
  issue_tokens-IsConsistent :
      (u : User) (ua ip : Option Text) (f : ℕ) (d : Draw) (db : AuthDb)
      → count (live_in f) db.refresh_tokens ≡ 0
      → IsConsistent db
      → IsConsistent (issue_tokens crypto cfg u ua ip (some f) d db).1
  unfolding issue_tokens
  issue_tokens-IsConsistent u ua ip f d db none_live c =
      ground
        (arith, add_refresh-IsConsistent (new_refresh crypto cfg u ua ip (some f) d) db none_live c)

  revoked_one :
      (h : Text) (r : RefreshToken) (t : ℕ) (db : AuthDb)
      → find (has_hash h) db.refresh_tokens ≡ some r
      → r.revoked_at ≡ none
      → IsConsistent db
      → count (live_in r.family_id) (revoke_where (λ s. s.id == r.id) t db).1.refresh_tokens ≡ 0
  unfolding revoke_where
  revoked_one h r t db e live c =
      omega (arith, count-revoke_one h t db.refresh_tokens {r = r} e live, c.one_live r.family_id)

  rotate_for-IsConsistent :
      (h : Text) (r : RefreshToken) (u : User) (ua ip : Option Text) (d : Draw) (db : AuthDb)
      → find (has_hash h) db.refresh_tokens ≡ some r
      → r.revoked_at ≡ none
      → IsConsistent db
      → IsConsistent (rotate_for crypto cfg r u ua ip d db).1
  unfolding rotate_for
  rotate_for-IsConsistent h r u ua ip d db e live c =
      bind-holds IsConsistent (revoke_where (λ s. s.id == r.id) d.revoked_at) _ db revoked λ _ _.
        bind-holds IsConsistent (issue_tokens crypto cfg u ua ip (some r.family_id) d) _ _ issued
          λ _ _. issued
    where
      revoked : IsConsistent (revoke_where (λ s. s.id == r.id) d.revoked_at db).1
      revoked = revoke_where-IsConsistent _ d.revoked_at db c

      issued :
          IsConsistent
            (issue_tokens crypto cfg u ua ip
              (some r.family_id)
              d
              (revoke_where (λ s. s.id == r.id) d.revoked_at db).1).1
      issued =
          issue_tokens-IsConsistent u ua ip r.family_id d _
            (revoked_one h r d.revoked_at db e live c) revoked

  rotate_live-IsConsistent :
      (h : Text) (r : RefreshToken) (ua ip : Option Text) (d : Draw) (db : AuthDb)
      → find (has_hash h) db.refresh_tokens ≡ some r
      → r.revoked_at ≡ none
      → IsConsistent db
      → IsConsistent (rotate_live crypto cfg r ua ip d db).1
  unfolding rotate_live user_by_id
  rotate_live-IsConsistent h r ua ip d db e live c =
      bind-holds IsConsistent (guard (ltb d.checked_at r.expires_at) _) _ db c λ _ _.
        bind-holds IsConsistent (user_by_id r.user_id) _ db c λ found _.
          bind-holds IsConsistent (or_raise (error invalid_refresh_token "user not found") found) _
            db c λ u _. rotate_for-IsConsistent h r u ua ip d db e live c

  rotate_found-IsConsistent :
      (h : Text) (r : RefreshToken) (ua ip : Option Text) (d : Draw) (db : AuthDb)
      → find (has_hash h) db.refresh_tokens ≡ some r
      → IsConsistent db
      → IsConsistent (rotate_found crypto cfg r ua ip d db).1
  unfolding rotate_found reject_reused revoke_where
  rotate_found-IsConsistent h r ua ip d db e c = elim (Bool-cases (is_some r.revoked_at)) [
    | inl dead ↦
        rw (dead, rotate_found)
          (revoke_where-IsConsistent (λ s. s.family_id == r.family_id) d.revoked_at db c)
    | inr live ↦
        rw (live, rotate_found) (rotate_live-IsConsistent h r ua ip d db e (ground arith) c)
  ]

  -- Whatever its outcome, a rotation keeps the account tables consistent: the unique columns stay
  -- unique and no family gets a second token that is not revoked.
  pub rotate_refresh-IsConsistent :
      (raw : Text) (ua ip : Option Text) (d : Draw) (db : AuthDb)
      → IsConsistent db
      → IsConsistent (rotate_refresh crypto cfg raw ua ip d db).1
  unfolding rotate_refresh
  rotate_refresh-IsConsistent raw ua ip d db c =
      rw (token_by_hash_lem (crypto.sha256 raw) db c, rotate_refresh)
        (elim (Option-cases (find (has_hash (crypto.sha256 raw)) db.refresh_tokens)) [
          | inl e ↦ rw e c
          | inr (r, e) ↦ rw e (rotate_found-IsConsistent (crypto.sha256 raw) r ua ip d db e c)
        ])
