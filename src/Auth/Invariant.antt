-- ===== src/Auth/Invariant.antt =====
-- The invariant of the account tables: the unique columns are unique, and no token family has two
-- tokens that are not revoked.
use ozzb2b.Shared.{
  ℕ, ◌+◌, ◌≤◌, ◌≡◌, refl, Bool, none, some, List, [], ◌∷◌, ◌||◌, ◌==◌, nat_eq, text_eq, Text,
  update, count, any, any-or_left, any-or_right, find, IsUnique, update-IsUnique, select-IsUnique,
  arith, ok, Bool-cases, nat_beq_iff, inl, inr,
}
use ozzb2b.Domain.{User}
use ozzb2b.Auth.{
  AuthDb, RefreshToken, Crypto, TokenSettings, live_in, revoke_at, has_hash, revoke_where,
  token_by_hash, add_user, add_refresh, touch_login,
}

pub record IsConsistent (db : AuthDb) : Type 0 where
  pub emails : IsUnique (λ (u : User). u.email) db.users
  pub user_ids : IsUnique (λ (u : User). u.id) db.users
  pub hashes : IsUnique (λ (r : RefreshToken). r.token_hash) db.refresh_tokens
  pub one_live : (f : ℕ) → count (live_in f) db.refresh_tokens ≤ 1

pub token_by_hash_lem :
    (h : Text) (db : AuthDb)
    → IsConsistent db
    → token_by_hash h db ≡ (ok (find (has_hash h) db.refresh_tokens), db)
unfolding token_by_hash
token_by_hash_lem h db c =
    rw (select-IsUnique (λ (r : RefreshToken). r.token_hash) h db.refresh_tokens c.hashes)
      (ground arith)

-- Revoking leaves no more live tokens than there were.
pub count-revoke :
    (f t : ℕ) (p : RefreshToken → Bool) (rs : List RefreshToken)
    → count (live_in f) (update p (revoke_at t) rs) ≤ count (live_in f) rs
unfolding count update
count-revoke f t p [] = omega arith
count-revoke f t p (r ∷ rs) = ground (arith, count-revoke f t p rs)

-- Revoking a whole family leaves none.
pub count-revoke_family :
    (f t : ℕ) (rs : List RefreshToken)
    → count (live_in f) (update (λ r. r.family_id == f) (revoke_at t) rs) ≡ 0
unfolding count update
count-revoke_family f t [] = refl
count-revoke_family f t (r ∷ rs) = ground (arith, count-revoke_family f t rs)

-- Revoking a live token by its id takes one live token from its family.
pub count-revoke_one :
    (h : Text) (t : ℕ) (rs : List RefreshToken) {r : RefreshToken}
    → find (has_hash h) rs ≡ some r
    → r.revoked_at ≡ none
    → count (live_in r.family_id) (update (λ s. s.id == r.id) (revoke_at t) rs) + 1
      ≤ count (live_in r.family_id) rs
unfolding count update find
count-revoke_one h t [] e live = cc
count-revoke_one h t (x ∷ rs) {r} e live = elim (Bool-cases (has_hash h x)) [
  | inl hit ↦ ground (arith, count-revoke r.family_id t (λ s. s.id == r.id) rs)
  | inr miss ↦ ground (arith, count-revoke_one h t rs {r = r})
]

pub revoke_where-IsConsistent :
    (p : RefreshToken → Bool) (t : ℕ) (db : AuthDb)
    → IsConsistent db
    → IsConsistent (revoke_where p t db).1
unfolding revoke_where
revoke_where-IsConsistent p t db c = record {
  emails = c.emails;
  user_ids = c.user_ids;
  hashes =
      update-IsUnique (λ (r : RefreshToken). r.token_hash) p (revoke_at t) db.refresh_tokens
        (λ r _. refl) c.hashes;
  one_live = λ f. omega (arith, count-revoke f t p db.refresh_tokens, c.one_live f);
}

-- A new token keeps the invariant if its family has no live token.
pub add_refresh-IsConsistent :
    (r : RefreshToken) (db : AuthDb)
    → count (live_in r.family_id) db.refresh_tokens ≡ 0
    → IsConsistent db
    → IsConsistent (add_refresh r db).1
unfolding add_refresh count
add_refresh-IsConsistent r db none_live c =
    elim (Bool-cases (any (λ s. s.id == r.id || s.token_hash == r.token_hash) db.refresh_tokens)) [
      | inl taken ↦ rw taken c
      | inr fresh ↦ rw fresh (record {
        emails = c.emails;
        user_ids = c.user_ids;
        hashes = (
          any-or_right (λ s. s.id == r.id) (λ s. s.token_hash == r.token_hash) _ fresh,
          c.hashes,
        );
        one_live = λ f. one_more f;
      })
    ]
  where
    one_more : (f : ℕ) → count (live_in f) (r ∷ db.refresh_tokens) ≤ 1
    one_more f = elim (Bool-cases (r.family_id == f)) [
      | inl same ↦ ground (arith, c.one_live f, nat_beq_iff r.family_id f)
      | inr other ↦ ground (arith, c.one_live f)
    ]

pub add_user-IsConsistent :
    (u : User) (db : AuthDb) → IsConsistent db → IsConsistent (add_user u db).1
unfolding add_user
add_user-IsConsistent u db c =
    elim (Bool-cases (any (λ v. v.id == u.id || v.email == u.email) db.users)) [
      | inl taken ↦ rw taken c
      | inr fresh ↦ rw fresh (record {
        emails = (any-or_right (λ v. v.id == u.id) (λ v. v.email == u.email) _ fresh, c.emails);
        user_ids = (any-or_left (λ v. v.id == u.id) (λ v. v.email == u.email) _ fresh, c.user_ids);
        hashes = c.hashes;
        one_live = c.one_live;
      })
    ]

pub touch_login-IsConsistent :
    (crypto : Crypto) (cfg : TokenSettings) (i now : ℕ) (db : AuthDb)
    → IsConsistent db
    → IsConsistent (touch_login crypto cfg i now db).1
unfolding touch_login
touch_login-IsConsistent crypto cfg i now db c = record {
  emails = update-IsUnique (λ (u : User). u.email) _ _ db.users (λ u _. refl) c.emails;
  user_ids = update-IsUnique (λ (u : User). u.id) _ _ db.users (λ u _. refl) c.user_ids;
  hashes = c.hashes;
  one_live = c.one_live;
}
