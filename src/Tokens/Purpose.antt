-- ===== src/Tokens/Purpose.antt =====
-- Tokens of one purpose do not serve the other, and a token that is made is read back, in
-- security/tokens.py.
use ozzb2b.Shared.{
  ℕ, ◌+◌, ◌*◌, ◌<◌, ◌≤◌, ◌≡◌, ◌⊎◌, refl, ap, inl, inr, Option, none, some, Text, Result, ok, err,
  Bool-cases, list_beq, text_eq,
}
use ozzb2b.Errors.{Error, token_error}
use ozzb2b.Tokens.{
  ClaimValue, text, Payload, JwtError, missing_required_claim, refused_token, Verify, Jwt,
  JwtSettings, is_legacy_claim, decode_with_audience, and_then, or_refused, with_legacy, read,
  for_audience, for_anyone, access_payload, create_access_token, decode_access_token,
  decode_ws_chat_token, access_claims, type_access, type_ws_chat, ws_chat_ttl_seconds, one_second,
  ws_chat_payload, create_ws_chat_token, create_ws_chat_token, create_access_token, ws_chat_claims,
}

-- an error that the callers catch
abbrev pub IsTokenError : {A : Type 0} → Result Error A → Type 0
IsTokenError (ok a) = ⊥
IsTokenError (err e) = e.cls ≡ token_error

or_refused-IsTokenError :
    (r : Result JwtError Payload) (p : Payload)
    → ((q : Payload) → r ≡ ok q → q ≡ p)
    → (or_refused r ≡ ok p) ⊎ IsTokenError (or_refused r)
or_refused-IsTokenError (ok q) p h = inl (ap ok (h q refl))
or_refused-IsTokenError (err e) p h = inr refl

with_legacy-IsTokenError :
    (r second : Result JwtError Payload) (p : Payload)
    → ((q : Payload) → r ≡ ok q → q ≡ p)
    → ((q : Payload) → second ≡ ok q → q ≡ p)
    → (with_legacy r second ≡ ok p) ⊎ IsTokenError (with_legacy r second)
with_legacy-IsTokenError (ok q) second p h k = inl (ap ok (h q refl))
with_legacy-IsTokenError (err (refused_token s)) second p h k = inr refl
with_legacy-IsTokenError (err (missing_required_claim claim s)) second p h k =
    elim (Bool-cases (is_legacy_claim claim)) [
      | inl e ↦ rw e (or_refused-IsTokenError second p k)
      | inr e ↦ rw e (inr refl)
    ]

-- the time that is read back from the seconds that PyJWT writes for one
abbrev pub whole_seconds : Jwt → ℕ → ℕ
whole_seconds jwt t = jwt.numeric_date t * one_second

-- what PyJWT promises of a datetime: it cuts off the part of a second
abbrev pub CutsOff : Jwt → ℕ → Type 0
CutsOff jwt t = (whole_seconds jwt t ≤ t) × (t < whole_seconds jwt t + one_second)

module _ (jwt : Jwt) (cfg : JwtSettings) where
  -- the two texts with which the code signs
  abbrev pub signed : Payload → Text
  signed p = jwt.encode p cfg.jwt_secret cfg.jwt_algorithm

  -- what PyJWT promises of a token that it signed: to read its payload or to refuse it
  abbrev pub Reads : Payload → Type 0
  Reads p = (v : Verify) (now : ℕ) (q : Payload) → read jwt cfg (signed p) v now ≡ ok q → q ≡ p

  -- the payload that was signed, or a TokenError
  decode_with_audience_cases :
      (p : Payload) (audience : Text) (now : ℕ)
      → Reads p
      → (decode_with_audience jwt cfg (signed p) audience now ≡ ok p)
        ⊎ IsTokenError (decode_with_audience jwt cfg (signed p) audience now)
  unfolding decode_with_audience
  decode_with_audience_cases p audience now h =
      with_legacy-IsTokenError _ _ p (h (for_audience jwt cfg audience) now)
        (h (for_anyone jwt cfg) now)

  and_then-IsTokenError :
      {A : Type 0} (f : Payload → Result Error A) (r : Result Error Payload) (p : Payload)
      → IsTokenError (f p)
      → (r ≡ ok p) ⊎ IsTokenError r
      → IsTokenError (and_then r f)
  and_then-IsTokenError f r p h (inl e) = rw e h
  and_then-IsTokenError f (err e) p h (inr k) = k
  and_then-IsTokenError f (ok q) p h (inr k) = absurd k

  ws_chat_claims-of_type :
      (p : Payload) (now : ℕ)
      → p.typ ≡ some (text type_access)
      → IsTokenError (ws_chat_claims now p)
  unfolding ws_chat_claims list_beq
  ws_chat_claims-of_type p now h = rw h refl

  access_claims-of_type :
      (p : Payload) (now : ℕ)
      → p.typ ≡ some (text type_ws_chat)
      → IsTokenError (access_claims now p)
  unfolding access_claims list_beq
  access_claims-of_type p now h = rw h refl

  -- Whatever the settings, even with one audience for both purposes, and whatever claims it has else, a
  -- signed token of the type access is refused with a TokenError where one for the chat is asked for, and
  -- one of the type ws_chat where an access token is, also by the shim for older tokens, provided PyJWT
  -- reads from a token that it signed nothing but the payload signed.
  pub types_are_kept_apart :
      (p q : Payload) (now : ℕ)
      → p.typ ≡ some (text type_access)
      → q.typ ≡ some (text type_ws_chat)
      → Reads p
      → Reads q
      → IsTokenError (decode_ws_chat_token jwt cfg (signed p) now)
        × IsTokenError (decode_access_token jwt cfg (signed q) now)
  unfolding decode_ws_chat_token decode_access_token
  types_are_kept_apart p q now at_p at_q h k = (
    and_then-IsTokenError (ws_chat_claims now) _ p (ws_chat_claims-of_type p now at_p)
        (decode_with_audience_cases p cfg.jwt_audience_ws_chat now h),
    and_then-IsTokenError (access_claims now) _ q (access_claims-of_type q now at_q)
        (decode_with_audience_cases q cfg.jwt_audience_api now k),
  )

  -- what PyJWT promises to accept: a token that it signed, for the audience and from the issuer that it
  -- names, in its time
  abbrev pub Names : Option Text → Option ClaimValue → Type 0
  Names none claim = Unit
  Names (some t) claim = claim ≡ some (text t)

  abbrev pub Accepts : Payload → ℕ → ℕ → Type 0
  Accepts p exp iat =
      (v : Verify) (now : ℕ)
      → Names v.audience p.aud
      → Names v.issuer p.iss
      → now < (exp + v.leeway) * one_second
      → iat * one_second ≤ now + v.leeway * one_second
      → read jwt cfg (signed p) v now ≡ ok p

  -- An access token is read back as the user, the role and the id that it was made with, and an expiry
  -- that is the answered one or earlier by less than a second, provided PyJWT accepts what it signed,
  -- for its audience and issuer, until the seconds written for its expiry have passed and from those
  -- written for its making on, both up to the leeway, and cuts off the part of a second of a datetime.
  pub decode_access_token-create_access_token :
      (user_id role jti : Text) (made issued now : ℕ)
      → Accepts
          (access_payload jwt cfg user_id role jti made issued)
          (jwt.numeric_date (made + cfg.jwt_access_ttl_seconds * one_second))
          (jwt.numeric_date issued)
      → now
        < (jwt.numeric_date (made + cfg.jwt_access_ttl_seconds * one_second)
            + cfg.jwt_leeway_seconds)
          * one_second
      → whole_seconds jwt issued ≤ now + cfg.jwt_leeway_seconds * one_second
      → CutsOff jwt (made + cfg.jwt_access_ttl_seconds * one_second)
      → (exp : ℕ) × (decode_access_token jwt cfg
            (create_access_token jwt cfg user_id role jti made issued).0
            now
          ≡ ok (record { sub = user_id; role = role; exp = exp; jti = jti }))
        × (exp ≤ (create_access_token jwt cfg user_id role jti made issued).1)
        × ((create_access_token jwt cfg user_id role jti made issued).1 < exp + one_second)
  unfolding decode_access_token create_access_token decode_with_audience access_claims
      access_payload list_beq
  decode_access_token-create_access_token user_id role jti made issued now h before after cut = (
    whole_seconds jwt (made + cfg.jwt_access_ttl_seconds * one_second),
    ap
        (λ r.
          and_then (with_legacy r (read jwt cfg (signed p) (for_anyone jwt cfg) now))
            (access_claims now))
        (h (for_audience jwt cfg cfg.jwt_audience_api) now refl refl before after),
    cut.0,
    cut.1,
  )
    where
      p : Payload
      p = access_payload jwt cfg user_id role jti made issued

  -- the same of a token for the chat
  pub decode_ws_chat_token-create_ws_chat_token :
      (user_id conversation_id jti : Text) (made issued now : ℕ)
      → Accepts
          (ws_chat_payload jwt cfg user_id conversation_id jti made issued)
          (jwt.numeric_date (made + ws_chat_ttl_seconds * one_second))
          (jwt.numeric_date issued)
      → now
        < (jwt.numeric_date (made + ws_chat_ttl_seconds * one_second) + cfg.jwt_leeway_seconds)
          * one_second
      → whole_seconds jwt issued ≤ now + cfg.jwt_leeway_seconds * one_second
      → decode_ws_chat_token jwt cfg
          (create_ws_chat_token jwt cfg user_id conversation_id jti made issued).0
          now
        ≡ ok (record {
          user_id = user_id;
          conversation_id = conversation_id;
          exp =
              whole_seconds jwt
                (create_ws_chat_token jwt cfg user_id conversation_id jti made issued).1;
          jti = jti;
        })
  unfolding decode_ws_chat_token create_ws_chat_token decode_with_audience ws_chat_claims
      ws_chat_payload list_beq
  decode_ws_chat_token-create_ws_chat_token user_id conversation_id jti made issued now h before
        after =
      ap
        (λ r.
          and_then (with_legacy r (read jwt cfg (signed p) (for_anyone jwt cfg) now))
            (ws_chat_claims now))
        (h (for_audience jwt cfg cfg.jwt_audience_ws_chat) now refl refl before after)
    where
      p : Payload
      p = ws_chat_payload jwt cfg user_id conversation_id jti made issued
