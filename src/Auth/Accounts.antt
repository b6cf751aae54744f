-- ===== src/Auth/Accounts.antt =====
-- `register` and `authenticate`: an account is found again by its e-mail and its password, and one
-- e-mail never has two accounts.
use ozzb2b.Shared.{
  ◌≡◌, refl, true, false, Option, some, ◌∷◌, ◌==◌, nat_eq, text_eq, Text, any, select,
  select-of_none, any-or_right, eq_refl, arith, ok, err, bind-eq-ok, guard, is_none, find,
  select-IsUnique,
}
use ozzb2b.Errors.{error, email_already_registered}
use ozzb2b.Domain.{User}
use ozzb2b.Auth.{
  AuthDb, Crypto, TokenSettings, Draw, normalize_email, add_user, new_user, user_by_email, register,
  check_password, touch_login, authenticate,
}
use ozzb2b.Auth.Invariant.{IsConsistent}

add_user-eq-ok :
    (u : User) (db : AuthDb)
    → (add_user u db).0 ≡ ok tt
    → (any (λ (v : User). v.email == u.email) db.users ≡ false)
      × ((add_user u db).1 ≡ record db { users = u ∷ db.users })
unfolding add_user
add_user-eq-ok u db h =
    ground (arith, any-or_right (λ v. v.id == u.id) (λ v. v.email == u.email) db.users)

user_by_email-head :
    (u : User) (db : AuthDb)
    → any (λ (v : User). v.email == u.email) db.users ≡ false
    → (user_by_email u.email (record db { users = u ∷ db.users })).0 ≡ ok (some u)
unfolding user_by_email select
user_by_email-head u db fresh =
    rw (eq_refl u.email, select-of_none (λ v. v.email == u.email) db.users fresh) refl

module _ (crypto : Crypto) (cfg : TokenSettings) where
  register-eq-ok :
      (email password : Text) (name : Option Text) (d : Draw) (db : AuthDb) {u : User}
      {db' : AuthDb}
      → register crypto cfg email password name d db ≡ (ok u, db')
      → (u ≡ new_user crypto cfg (normalize_email email) password name d)
        × (any (λ (v : User). v.email == normalize_email email) db.users ≡ false)
        × (db' ≡ record db { users = u ∷ db.users })
  unfolding register user_by_email
  register-eq-ok email password name d db {u} {db'} h =
      let made = new_user crypto cfg (normalize_email email) password name d in
      let (found, _, rest) = bind-eq-ok (user_by_email (normalize_email email)) _ db h in
      let (_, _, rest') =
        bind-eq-ok
          (guard (is_none found) (error email_already_registered "email already registered")) _ db
          rest in
      let (_, added, rest'') = bind-eq-ok (add_user made) _ db rest' in
      let (fresh, after) = add_user-eq-ok made db (ground arith) in
      (ground arith, fresh, ground arith)

  -- An account is found again: after a registration that returns, logging in with the password and
  -- any spelling of the address that normalises alike returns the account that was registered.
  pub register-authenticate :
      (email email' password : Text) (name : Option Text) (d d' : Draw) (db : AuthDb) {u : User}
      {db' : AuthDb}
      → crypto.verify_password password (crypto.hash_password password) ≡ true
      → normalize_email email' ≡ normalize_email email
      → register crypto cfg email password name d db ≡ (ok u, db')
      → (authenticate crypto cfg email' password d' db').0 ≡ ok u
  unfolding authenticate check_password touch_login
  register-authenticate email email' password name d d' db {u} {db'} verifies same h =
      let (made, fresh, after) = register-eq-ok email password name d db h in
      let look : (user_by_email (normalize_email email') db').0 ≡ ok (some u) =
        rw (same, after, made)
          (user_by_email-head (new_user crypto cfg (normalize_email email) password name d) db
            fresh) in
      let accepted : check_password crypto cfg password (some u) ≡ ok u =
        rw made (rw verifies refl) in
      rw look (rw accepted refl)

  -- One address has one account: registering an address that already has one, in any spelling
  -- that normalises alike, is refused and changes nothing.
  pub register_taken :
      (email password : Text) (name : Option Text) (d : Draw) (db : AuthDb) (u : User)
      → IsConsistent db
      → find (λ v. v.email == normalize_email email) db.users ≡ some u
      → register crypto cfg email password name d db
        ≡ (err (error email_already_registered "email already registered"), db)
  unfolding register user_by_email
  register_taken email password name d db u c e =
      rw (select-IsUnique (λ (v : User). v.email) (normalize_email email) db.users c.emails)
        (rw e refl)
