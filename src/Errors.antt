-- ===== src/Errors.antt =====
-- The exceptions that the services and routes raise, as classes with a message, and how the
-- application answers them: apps/api/src/ozzb2b_api/errors.py and the handler in app.py.
use ozzb2b.Shared.{ℕ, String, Bool, true, false, Option, none, some}

pub data ErrorClass : Type 0 where
  -- errors.py
  domain not_found conflict validation authentication forbidden : ErrorClass
  external_service rate_limited : ErrorClass
  -- services/leads.py
  lead_rejected outreach_not_editable recipient_suppressed : ErrorClass
  -- services/claims.py
  claim provider_already_claimed no_verifiable_website homepage_unreachable : ErrorClass
  meta_tag_not_found : ErrorClass
  -- services/auth.py, security/tokens.py
  email_already_registered invalid_credentials invalid_refresh_token token_error : ErrorClass
  -- services/chat.py
  chat provider_not_found conversation_not_found chat_forbidden : ErrorClass
  -- Python's PermissionError, fastapi's HTTPException, and what the database driver raises
  permission : ErrorClass
  value_error : ErrorClass
  -- Python's KeyError
  key_error : ErrorClass
  -- clients/matcher.py
  matcher_unavailable : ErrorClass
  -- security/safe_http.py
  unsafe_url : ErrorClass
  http : ℕ → ErrorClass
  multiple_results integrity programming : ErrorClass

pub record Error : Type 0 where
  pub cls : ErrorClass
  pub detail : String

abbrev pub error : ErrorClass → String → Error
error c d = record { cls = c; detail = d }

abbrev pub multiple : Error
multiple = error multiple_results "Multiple rows were found when one or none was required"

abbrev pub violation : Error
violation = error integrity "unique constraint"

-- the `status_code` of a subclass of DomainError; `none` for any other exception
unfoldable pub status_code : ErrorClass → Option ℕ
status_code domain = some 400
status_code not_found = some 404
status_code conflict = some 409
status_code validation = some 422
status_code authentication = some 401
status_code forbidden = some 403
status_code external_service = some 502
status_code rate_limited = some 429
status_code lead_rejected = some 422
status_code outreach_not_editable = some 409
status_code recipient_suppressed = some 409
status_code claim = some 400
status_code provider_already_claimed = some 409
status_code no_verifiable_website = some 400
status_code homepage_unreachable = some 502
status_code meta_tag_not_found = some 400
status_code _ = none

-- `except DomainError`
unfoldable pub is_domain_error : Error → Bool
unfolding status_code
is_domain_error e = elim (status_code e.cls) [ none ↦ false | some s ↦ true ]

-- `except MatcherUnavailableError`
unfoldable pub is_matcher_unavailable : Error → Bool
is_matcher_unavailable e = elim e.cls [ matcher_unavailable ↦ true | _ ↦ false ]
