-- ===== src/Auth/Requests/Histories.antt =====
-- All tables that requests can lead to are consistent.
use ozzb2b.Shared.{
  ℕ, ◌≡◌, Option, none, some, nat_eq, text_eq, Text, count, is_none, is_truthy, Exec, ◌>>=◌, ◌>>◌,
  pure, lift, guard, get_db, bind-holds, Result-cases, Bool-cases, inl, inr, arith,
}
use ozzb2b.Errors.{Error, error, email_already_registered}
use ozzb2b.Domain.{User}
use ozzb2b.Auth.{
  AuthDb, Crypto, TokenSettings, Draw, IssuedTokens, live_in, normalize_email, new_user,
  new_refresh, user_by_email, add_user, register, check_password, touch_login, authenticate,
  issue_tokens, refresh_endpoint, revoke_refresh, logout_endpoint,
}
use ozzb2b.Auth.Invariant.{
  IsConsistent, add_user-IsConsistent, add_refresh-IsConsistent, touch_login-IsConsistent,
  revoke_where-IsConsistent,
}
use ozzb2b.Auth.Keeping.{rotate_refresh-IsConsistent}
use ozzb2b.Auth.Requests.{
  AuthRequest, registers, logs_in, refreshes, logs_out, as_conflict, as_refused, catch,
  register_endpoint, login_endpoint, auth_handle, auth_request, Reachable, start, served,
}

-- consistent tables with no live token of a family
pub record IsReady (f : ℕ) (db : AuthDb) : Type 0 where
  pub consistent : IsConsistent db
  pub no_live : count (live_in f) db.refresh_tokens ≡ 0

add_user-IsReady : (f : ℕ) (u : User) (db : AuthDb) → IsReady f db → IsReady f (add_user u db).1
unfolding add_user
add_user-IsReady f u db r = record {
  consistent = unfold add_user in (add_user-IsConsistent u db r.consistent);
  no_live = ground (arith, r.no_live);
}

module _ (crypto : Crypto) (cfg : TokenSettings) where
  register-IsReady :
      (f : ℕ) (email password : Text) (name : Option Text) (d : Draw) (db : AuthDb)
      → IsReady f db
      → IsReady f (register crypto cfg email password name d db).1
  unfolding register user_by_email
  register-IsReady f email password name d db r =
      bind-holds (IsReady f) (user_by_email (normalize_email email)) _ db r λ found _.
        bind-holds (IsReady f)
          (guard (is_none found) (error email_already_registered "email already registered")) _ db r
          λ _ _.
            bind-holds (IsReady f)
              (add_user (new_user crypto cfg (normalize_email email) password name d)) _ db
              (add_user-IsReady f _ db r) λ _ _. add_user-IsReady f _ db r

  authenticate-IsReady :
      (f : ℕ) (email password : Text) (d : Draw) (db : AuthDb)
      → IsReady f db
      → IsReady f (authenticate crypto cfg email password d db).1
  unfolding authenticate user_by_email touch_login
  authenticate-IsReady f email password d db r =
      bind-holds (IsReady f) (user_by_email (normalize_email email)) _ db r λ found _.
        bind-holds (IsReady f) (lift (check_password crypto cfg password found)) _ db r λ u _.
          record {
            consistent =
                unfold touch_login in
                (touch_login-IsConsistent crypto cfg u.id d.checked_at db r.consistent);
            no_live = r.no_live;
          }

  issue_new-IsConsistent :
      (u : User) (ua ip : Option Text) (d : Draw) (db : AuthDb)
      → IsReady d.family_id db
      → IsConsistent (issue_tokens crypto cfg u ua ip none d db).1
  unfolding issue_tokens
  issue_new-IsConsistent u ua ip d db r = ground (
    arith,
    add_refresh-IsConsistent (new_refresh crypto cfg u ua ip none d) db r.no_live r.consistent,
  )

  abbrev returned : User → IssuedTokens → Exec AuthDb Error (User × IssuedTokens)
  returned u t = pure (u, t)

  -- an endpoint that finds a user and issues a pair
  issue_after :
      (m : Exec AuthDb Error User) (g : Error → Error) (ua ip : Option Text) (d : Draw)
      (db : AuthDb)
      → IsReady d.family_id (m db).1
      → IsConsistent
          ((catch g m >>= λ u. issue_tokens crypto cfg u ua ip none d >>= returned u) db).1
  unfolding catch
  issue_after m g ua ip d db r = bind-holds IsConsistent (catch g m) _ db r.consistent λ u _.
      bind-holds IsConsistent (issue_tokens crypto cfg u ua ip none d) (returned u) (m db).1
        (issue_new-IsConsistent u ua ip d (m db).1 r)
        λ _ _. issue_new-IsConsistent u ua ip d (m db).1 r

  refresh_endpoint-IsConsistent :
      (cookie ua ip : Option Text) (d : Draw) (db : AuthDb)
      → IsConsistent db
      → IsConsistent (refresh_endpoint crypto cfg cookie ua ip d db).1
  unfolding refresh_endpoint
  refresh_endpoint-IsConsistent none ua ip d db c = c
  refresh_endpoint-IsConsistent (some raw) ua ip d db c = elim (Bool-cases (is_truthy raw)) [
    | inl e ↦ rw e (rotate_refresh-IsConsistent crypto cfg raw ua ip d db c)
    | inr e ↦ rw e c
  ]

  logout_endpoint-IsConsistent :
      (cookie : Option Text) (d : Draw) (db : AuthDb)
      → IsConsistent db
      → IsConsistent (logout_endpoint crypto cfg cookie d db).1
  unfolding logout_endpoint revoke_refresh
  logout_endpoint-IsConsistent none d db c = c
  logout_endpoint-IsConsistent (some raw) d db c = elim (Bool-cases (is_truthy raw)) [
    | inl e ↦ rw e (revoke_where-IsConsistent _ d.revoked_at db c)
    | inr e ↦ rw e c
  ]

  then_done :
      {A : Type 0} (h : Exec AuthDb Error A) (db : AuthDb)
      → IsConsistent (h db).1
      → IsConsistent ((h >> pure tt) db).1
  then_done h db c = bind-holds IsConsistent h (λ _. pure tt) db c (λ _ _. c)

  auth_handle-IsConsistent :
      (q : AuthRequest) (ua ip : Option Text) (d : Draw) (db : AuthDb)
      → IsReady d.family_id db
      → IsConsistent (auth_handle crypto cfg q ua ip d db).1
  unfolding auth_handle register_endpoint login_endpoint
  auth_handle-IsConsistent (registers email password name) ua ip d db r =
      then_done (register_endpoint crypto cfg email password name ua ip d) db (
        issue_after (register crypto cfg email password name d) as_conflict ua ip d db
          (register-IsReady d.family_id email password name d db r))
  auth_handle-IsConsistent (logs_in email password) ua ip d db r =
      then_done (login_endpoint crypto cfg email password ua ip d) db (
        issue_after (authenticate crypto cfg email password d) as_refused ua ip d db
          (authenticate-IsReady d.family_id email password d db r))
  auth_handle-IsConsistent (refreshes cookie) ua ip d db r =
      then_done (refresh_endpoint crypto cfg cookie ua ip d) db
        (refresh_endpoint-IsConsistent cookie ua ip d db r.consistent)
  auth_handle-IsConsistent (logs_out cookie) ua ip d db r =
      logout_endpoint-IsConsistent cookie d db r.consistent

  auth_request-IsConsistent :
      (q : AuthRequest) (ua ip : Option Text) (d : Draw) (db : AuthDb)
      → IsReady d.family_id db
      → IsConsistent (auth_request crypto cfg q ua ip d db).1
  unfolding auth_request get_db
  auth_request-IsConsistent q ua ip d db r =
      elim (Result-cases (auth_handle crypto cfg q ua ip d db).0) [
        | inl (a, e) ↦ rw (e, get_db) (auth_handle-IsConsistent q ua ip d db r)
        | inr (x, e) ↦ rw (e, get_db) r.consistent
      ]

  -- Whatever registrations, logins, refreshes and logouts are served, committed or rolled back, in
  -- whatever order, e-mails, user ids and token hashes stay unique and no token family ever has two
  -- live tokens, when each request draws a family that no live token has.
  pub Reachable-IsConsistent : (db : AuthDb) → Reachable crypto cfg db → IsConsistent db
  unfolding count
  Reachable-IsConsistent _ start = record {
    emails = tt;
    user_ids = tt;
    hashes = tt;
    one_live = λ f. omega arith;
  }
  Reachable-IsConsistent _ (served db q ua ip d before fresh) =
      auth_request-IsConsistent q ua ip d db
        (record { consistent = Reachable-IsConsistent db before; no_live = fresh })
