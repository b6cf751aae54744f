-- ===== src/Auth/Rotation.antt =====
-- `rotate_refresh`: what it has found and done when it returns.
use ozzb2b.Shared.{
  ℕ, ◌<◌, ◌≡◌, false, Option, none, some, ◌∷◌, ◌==◌, nat_eq, text_eq, Text, update, any, find, ap,
  arith, ok, Result, Bool-cases, inl, inr, ltb, is_some, bind-eq-ok, any-or_right, any-update, sym,
  refl, ◌∙◌, true, ◌+◌, List, [], select, scalar_one_or_none, found_or, nat_beq_iff, guard,
  or_raise,
}
use ozzb2b.Errors.{Error, error, multiple, invalid_refresh_token}
use ozzb2b.Domain.{User}
use ozzb2b.Auth.{
  AuthDb, RefreshToken, Crypto, TokenSettings, Draw, IssuedTokens, revoke_at, has_hash,
  revoke_where, token_by_hash, user_by_id, add_refresh, new_refresh, issued, issue_tokens,
  rotate_for, rotate_live, reject_reused, rotate_found, rotate_refresh,
}
use ozzb2b.Auth.Invariant.{IsConsistent, token_by_hash_lem}

module _ (crypto : Crypto) (cfg : TokenSettings) where
  abbrev pub rotated : RefreshToken → User → Option Text → Option Text → Draw → AuthDb → AuthDb
  rotated r u ua ip d db = record db {
    refresh_tokens =
        new_refresh crypto cfg u ua ip (some r.family_id) d
        ∷ update (λ s. s.id == r.id) (revoke_at d.revoked_at) db.refresh_tokens;
  }

  -- what a rotation that returns has found and done, in the terms of the code
  pub record Rotated (raw : Text) (ua ip : Option Text) (d : Draw) (db : AuthDb) (u : User)
      (t : IssuedTokens) (db' : AuthDb) : Type 0 where
    pub old : RefreshToken
    pub found : find (has_hash (crypto.sha256 raw)) db.refresh_tokens ≡ some old
    pub live : old.revoked_at ≡ none
    pub unexpired : d.checked_at < old.expires_at
    pub fresh :
        any
          (λ s. s.token_hash == crypto.sha256 d.refresh_raw)
          (update (λ s. s.id == old.id) (revoke_at d.revoked_at) db.refresh_tokens)
        ≡ false
    pub after : db' ≡ rotated old u ua ip d db
    pub made : t ≡ issued crypto cfg u d
    pub owner : u.id ≡ old.user_id
    pub known : any (λ (v : User). v.id == old.user_id) db.users ≡ true

  -- What a rotation that returns has found and done: `old` is the token that was presented and `new`
  -- the row of the token that is returned.
  pub record Rotation (raw : Text) (d : Draw) (db : AuthDb) (u : User) (t : IssuedTokens)
      (db' : AuthDb) : Type 0 where
    pub old : RefreshToken
    pub found : find (has_hash (crypto.sha256 raw)) db.refresh_tokens ≡ some old
    pub live : old.revoked_at ≡ none
    pub unexpired : d.checked_at < old.expires_at
    pub owner : u.id ≡ old.user_id
    pub known : any (λ (v : User). v.id == old.user_id) db.users ≡ true
    pub fresh : any (has_hash (crypto.sha256 t.refresh_token)) db.refresh_tokens ≡ false
    pub new : RefreshToken
    pub for_owner : new.user_id ≡ old.user_id
    pub in_family : new.family_id ≡ old.family_id
    pub hashed : new.token_hash ≡ crypto.sha256 t.refresh_token
    pub unrevoked : new.revoked_at ≡ none
    pub expires : new.expires_at ≡ t.refresh_expires_at
    pub lifetime : t.refresh_expires_at ≡ d.issued_at + cfg.jwt_refresh_ttl_seconds
    pub access :
        t.access_token
        ≡ crypto.encode_access u.id u.role
            (d.issued_at + cfg.jwt_access_ttl_seconds)
            d.issued_at
            d.jti
    pub users : db'.users ≡ db.users
    pub tokens :
        db'.refresh_tokens
        ≡ new
          ∷ update
              (λ s. s.id == old.id)
              (λ s. record s { revoked_at = some d.revoked_at })
              db.refresh_tokens

  issue_tokens-eq-ok :
      (u : User) (ua ip : Option Text) (f : ℕ) (d : Draw) (db : AuthDb) {t : IssuedTokens}
      → (issue_tokens crypto cfg u ua ip (some f) d db).0 ≡ ok t
      → (t ≡ issued crypto cfg u d)
        × (any (λ s. s.token_hash == crypto.sha256 d.refresh_raw) db.refresh_tokens ≡ false)
        × ((issue_tokens crypto cfg u ua ip (some f) d db).1 ≡ record db {
          refresh_tokens = new_refresh crypto cfg u ua ip (some f) d ∷ db.refresh_tokens;
        })
  unfolding issue_tokens add_refresh
  issue_tokens-eq-ok u ua ip f d db h = ground (
    arith,
    any-or_right (λ s. s.id == d.record_id) (λ s. s.token_hash == crypto.sha256 d.refresh_raw)
        db.refresh_tokens,
  )

  rotate_for-eq-ok :
      (raw : Text) (r : RefreshToken) (v : User) (ua ip : Option Text) (d : Draw) (db : AuthDb)
      {u : User} {t : IssuedTokens} {db' : AuthDb}
      → find (has_hash (crypto.sha256 raw)) db.refresh_tokens ≡ some r
      → r.revoked_at ≡ none
      → d.checked_at < r.expires_at
      → v.id ≡ r.user_id
      → any (λ (w : User). w.id == r.user_id) db.users ≡ true
      → rotate_for crypto cfg r v ua ip d db ≡ (ok (u, t), db')
      → Rotated raw ua ip d db u t db'
  unfolding rotate_for revoke_where
  rotate_for-eq-ok raw r v ua ip d db {u} {t} {db'} e live unexpired own known h =
      let (s, issue, end) =
        bind-eq-ok (issue_tokens crypto cfg v ua ip (some r.family_id) d) _
          (revoke_where (λ s. s.id == r.id) d.revoked_at db).1 h in
      let (made, fresh, after) =
        issue_tokens-eq-ok v ua ip r.family_id d
          (revoke_where (λ s. s.id == r.id) d.revoked_at db).1 issue in
      let same : v ≡ u = ground (arith, end) in
      let is : s ≡ t = ground (arith, end) in
      record {
        old = r;
        found = e;
        live = live;
        unexpired = unexpired;
        fresh = fresh;
        after = cc;
        made = sym is ∙ made ∙ ap (λ w. issued crypto cfg w d) same;
        owner = ap (λ (w : User). w.id) (sym same) ∙ own;
        known = known;
      }

  first_user :
      (u : User) (users : List User) {o : Option User} {v : User}
      → scalar_one_or_none multiple (u ∷ users) ≡ ok o
      → found_or (error invalid_refresh_token "user not found") o ≡ ok v
      → u ≡ v
  first_user u [] h k = ground (arith, h, k)
  first_user u (w ∷ users) h k = absurd (ground (arith, h))

  one_user-eq-ok :
      (id : ℕ) (users : List User) {o : Option User} {v : User}
      → scalar_one_or_none multiple (select (λ (u : User). u.id == id) users) ≡ ok o
      → found_or (error invalid_refresh_token "user not found") o ≡ ok v
      → (v.id ≡ id) × (any (λ (w : User). w.id == id) users ≡ true)
  unfolding any select
  one_user-eq-ok id [] h k = absurd (ground (arith, h, k))
  one_user-eq-ok id (u ∷ users) {o} {v} h k = elim (Bool-cases (u.id == id)) [
    | inl e ↦ (
      ap (λ (w : User). w.id) (sym (first_user u _ {o = o} {v = v} (rw e at h) k))
          ∙ ground (arith, e, nat_beq_iff u.id id),
      rw e refl,
    )
    | inr e ↦
        let (own, known) = one_user-eq-ok id users {o = o} {v = v} (rw e at h) k in
        (own, rw e known)
  ]

  rotate_live-eq-ok :
      (raw : Text) (r : RefreshToken) (ua ip : Option Text) (d : Draw) (db : AuthDb) {u : User}
      {t : IssuedTokens} {db' : AuthDb}
      → find (has_hash (crypto.sha256 raw)) db.refresh_tokens ≡ some r
      → r.revoked_at ≡ none
      → rotate_live crypto cfg r ua ip d db ≡ (ok (u, t), db')
      → Rotated raw ua ip d db u t db'
  unfolding rotate_live user_by_id
  rotate_live-eq-ok raw r ua ip d db e live h =
      let (_, passed, rest) =
        bind-eq-ok
          (guard (ltb d.checked_at r.expires_at)
            (error invalid_refresh_token "refresh token expired"))
          _ db h in
      let (found, asked, rest') = bind-eq-ok (user_by_id r.user_id) _ db rest in
      let (v, there, rest'') =
        bind-eq-ok (or_raise (error invalid_refresh_token "user not found") found) _ db rest' in
      let (own, known) = one_user-eq-ok r.user_id db.users asked there in
      rotate_for-eq-ok raw r v ua ip d db e live (ground arith) own known rest''

  rotate_found-eq-ok :
      (raw : Text) (r : RefreshToken) (ua ip : Option Text) (d : Draw) (db : AuthDb) {u : User}
      {t : IssuedTokens} {db' : AuthDb}
      → find (has_hash (crypto.sha256 raw)) db.refresh_tokens ≡ some r
      → rotate_found crypto cfg r ua ip d db ≡ (ok (u, t), db')
      → Rotated raw ua ip d db u t db'
  unfolding rotate_found reject_reused
  rotate_found-eq-ok raw r ua ip d db e h = elim (Bool-cases (is_some r.revoked_at)) [
    | inl dead ↦ absurd (ground arith)
    | inr live ↦ rotate_live-eq-ok raw r ua ip d db e (ground arith) (rw (live, rotate_found) at h)
  ]

  pub rotate_refresh-Rotated :
      (raw : Text) (ua ip : Option Text) (d : Draw) (db : AuthDb) {u : User} {t : IssuedTokens}
      {db' : AuthDb}
      → IsConsistent db
      → rotate_refresh crypto cfg raw ua ip d db ≡ (ok (u, t), db')
      → Rotated raw ua ip d db u t db'
  unfolding rotate_refresh token_by_hash
  rotate_refresh-Rotated raw ua ip d db c h =
      let (found, look, rest) = bind-eq-ok (token_by_hash (crypto.sha256 raw)) _ db h in
      let (r, there, rest') =
        bind-eq-ok (or_raise (error invalid_refresh_token "refresh token not found") found) _ db
          rest in
      rotate_found-eq-ok raw r ua ip d db
        (ground (
          arith,
          ap (λ (p : Result Error (Option RefreshToken) × AuthDb). p.0)
              (token_by_hash_lem (crypto.sha256 raw) db c),
        ))
        rest'

  -- What a rotation that returns has found and done, in consistent tables: a stored token with the
  -- hash of `raw`, neither revoked nor expired, whose user it returns; then that row is revoked, and one
  -- new row is added, for the same user and in the same family, with the hash of the refresh token that
  -- is returned, which no row had, unrevoked and with the expiry that is returned, the lifetime of a
  -- refresh token after its making; the access token is made for that user; and no other row changes.
  pub rotate_refresh-eq-ok :
      (raw : Text) (ua ip : Option Text) (d : Draw) (db : AuthDb) {u : User} {t : IssuedTokens}
      {db' : AuthDb}
      → IsConsistent db
      → rotate_refresh crypto cfg raw ua ip d db ≡ (ok (u, t), db')
      → Rotation raw d db u t db'
  rotate_refresh-eq-ok raw ua ip d db {u} {t} {db'} c h =
      let r = rotate_refresh-Rotated raw ua ip d db c h in
      rw r.made (record {
        old = r.old;
        found = r.found;
        live = r.live;
        unexpired = r.unexpired;
        owner = r.owner;
        known = r.known;
        fresh =
            sym (
              any-update (λ s. s.id == r.old.id) (has_hash (crypto.sha256 d.refresh_raw))
                (revoke_at d.revoked_at) db.refresh_tokens (λ x k. refl))
            ∙ r.fresh;
        new = new_refresh crypto cfg u ua ip (some r.old.family_id) d;
        for_owner = r.owner;
        in_family = refl;
        hashed = refl;
        unrevoked = refl;
        expires = refl;
        lifetime = refl;
        access = refl;
        users = ap (λ (s : AuthDb). s.users) r.after;
        tokens = ap (λ (s : AuthDb). s.refresh_tokens) r.after;
      })
