-- ===== src/Auth/Reuse.antt =====
-- The detection of a reused refresh token, and what the request that detects it leaves stored.
use ozzb2b.Shared.{
  ℕ, ◌≡◌, refl, true, false, Option, some, ◌==◌, nat_eq, text_eq, Text, update, count, any, find,
  find-update, find-any, find_sound, eq_refl, eq_iff, ap, arith, ok, err, Result, subst, sym,
  is_truthy, get_db,
}
use ozzb2b.Errors.{Error, error, invalid_refresh_token, http}
use ozzb2b.Domain.{User}
use ozzb2b.Auth.{
  AuthDb, RefreshToken, Crypto, TokenSettings, Draw, IssuedTokens, live_in, revoke_at, has_hash,
  revoke_where, reject_reused, rotate_found, rotate_refresh, refresh_endpoint, refresh_request,
  as_unauthorized,
}
use ozzb2b.Auth.Keeping.{rotate_refresh-IsConsistent}
use ozzb2b.Auth.Rotation.{rotated, rotate_refresh-Rotated}
use ozzb2b.Auth.Invariant.{IsConsistent, token_by_hash_lem, count-revoke_family}

abbrev pub already_used : Error
already_used = error invalid_refresh_token "refresh token already used"

module _ (crypto : Crypto) (cfg : TokenSettings) where
  -- the search by the old hash finds the old token, revoked, after the rotation
  find-rotated :
      (h : Text) (r : RefreshToken) (u : User) (ua ip : Option Text) (d : Draw) (db : AuthDb)
      → find (has_hash h) db.refresh_tokens ≡ some r
      → any
          (λ s. s.token_hash == crypto.sha256 d.refresh_raw)
          (update (λ s. s.id == r.id) (revoke_at d.revoked_at) db.refresh_tokens)
        ≡ false
      → find (has_hash h) (rotated crypto cfg r u ua ip d db).refresh_tokens
        ≡ some (revoke_at d.revoked_at r)
  unfolding find
  find-rotated h r u ua ip d db e fresh =
      let kept =
        find-update (λ s. s.id == r.id) (has_hash h) (revoke_at d.revoked_at) db.refresh_tokens r
          (λ s _. refl) e (eq_refl r.id) in
      let other =
        find-any (λ s. s.token_hash == crypto.sha256 d.refresh_raw) (has_hash h) _
          (revoke_at d.revoked_at r) kept fresh in
      ground (
        arith,
        kept,
        other,
        eq_iff r.token_hash h,
        eq_iff r.token_hash (crypto.sha256 d.refresh_raw),
        eq_iff (crypto.sha256 d.refresh_raw) h,
        find_sound (has_hash h) db.refresh_tokens {x = r} e,
      )

  -- the branch on a token that is already revoked
  rotate_refresh-revoked :
      (raw : Text) (ua ip : Option Text) (d : Draw) (db : AuthDb) (r : RefreshToken) (t : ℕ)
      → IsConsistent db
      → find (has_hash (crypto.sha256 raw)) db.refresh_tokens ≡ some r
      → r.revoked_at ≡ some t
      → rotate_refresh crypto cfg raw ua ip d db
        ≡ (err already_used, (revoke_where (λ s. s.family_id == r.family_id) d.revoked_at db).1)
  unfolding rotate_refresh rotate_found reject_reused revoke_where
  rotate_refresh-revoked raw ua ip d db r t c e dead =
      rw (token_by_hash_lem (crypto.sha256 raw) db c, rotate_refresh) (rw e (ground arith))

  after_rotation :
      (raw : Text) (ua ip : Option Text) (d : Draw) (db : AuthDb) {u : User} {t : IssuedTokens}
      {db' : AuthDb} (c : IsConsistent db)
      (h : rotate_refresh crypto cfg raw ua ip d db ≡ (ok (u, t), db'))
      → IsConsistent db'
        × (find (has_hash (crypto.sha256 raw)) db'.refresh_tokens
            ≡ some
                (revoke_at d.revoked_at (rotate_refresh-Rotated crypto cfg raw ua ip d db c h).old))
  after_rotation raw ua ip d db {u} {t} {db'} c h =
      let rot = rotate_refresh-Rotated crypto cfg raw ua ip d db c h in
      (
        subst IsConsistent (ap (λ (p : Result Error (User × IssuedTokens) × AuthDb). p.1) h)
            (rotate_refresh-IsConsistent crypto cfg raw ua ip d db c),
        subst
            (λ s.
              find (has_hash (crypto.sha256 raw)) s.refresh_tokens
              ≡ some (revoke_at d.revoked_at rot.old))
            (sym rot.after)
            (find-rotated (crypto.sha256 raw) rot.old u ua ip d db rot.found rot.fresh),
      )

  -- A refresh token is good for one rotation. Once a rotation of `raw` has returned, any later
  -- presentation of `raw` to the resulting database is refused as already used, and leaves no
  -- token of its family that is not revoked, the one just issued included.
  pub rotate_refresh_reuse :
      (raw : Text) (ua ip ua' ip' : Option Text) (d d' : Draw) (db : AuthDb) {u : User}
      {t : IssuedTokens} {db' : AuthDb}
      → IsConsistent db
      → rotate_refresh crypto cfg raw ua ip d db ≡ (ok (u, t), db')
      → (r : RefreshToken) × (find (has_hash (crypto.sha256 raw)) db.refresh_tokens ≡ some r)
        × ((rotate_refresh crypto cfg raw ua' ip' d' db').0 ≡ err already_used)
        × (count
              (live_in r.family_id)
              (rotate_refresh crypto cfg raw ua' ip' d' db').1.refresh_tokens
            ≡ 0)
  unfolding revoke_where
  rotate_refresh_reuse raw ua ip ua' ip' d d' db {u} {t} {db'} c h =
      let rot = rotate_refresh-Rotated crypto cfg raw ua ip d db c h in
      let (c', e') = after_rotation raw ua ip d db c h in
      let again =
        rotate_refresh-revoked raw ua' ip' d' db' (revoke_at d.revoked_at rot.old) d.revoked_at c'
          e' refl in
      (
        rot.old,
        rot.found,
        ap (λ (p : Result Error (User × IssuedTokens) × AuthDb). p.0) again,
        rw again (count-revoke_family rot.old.family_id d'.revoked_at db'.refresh_tokens),
      )

  -- The defect: the handler raises for a reused token, so `get_db` rolls the transaction back, and
  -- the revocation of the family with it. The service alone leaves no token of the family that is
  -- not revoked; the request answers 401 and leaves the database as it was.
  pub refresh_request_reuse :
      (raw : Text) (ua ip : Option Text) (d : Draw) (db : AuthDb) (r : RefreshToken) (t : ℕ)
      → IsConsistent db
      → is_truthy raw ≡ true
      → find (has_hash (crypto.sha256 raw)) db.refresh_tokens ≡ some r
      → r.revoked_at ≡ some t
      → (count (live_in r.family_id) (rotate_refresh crypto cfg raw ua ip d db).1.refresh_tokens
          ≡ 0)
        × (refresh_request crypto cfg (some raw) ua ip d db
            ≡ (err (error (http 401) "refresh token already used"), db))
  unfolding refresh_request refresh_endpoint as_unauthorized get_db revoke_where
  refresh_request_reuse raw ua ip d db r t c given e dead =
      let refused = rotate_refresh-revoked raw ua ip d db r t c e dead in
      (
        rw refused (count-revoke_family r.family_id d.revoked_at db.refresh_tokens),
        ground (arith, refused),
      )
