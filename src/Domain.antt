-- ===== src/Domain.antt =====
-- Rows that several components read: users with their roles, and providers.
-- apps/api/src/ozzb2b_api/db/models/user.py and provider.py (the columns that the services use).
-- UUIDs and integer keys are numbers, and so are timestamps, in seconds since the epoch.
use ozzb2b.Shared.{ℕ, Bool, true, false, Option, Text}

pub data UserRole : Type 0 where
  admin provider_owner client : UserRole

abbrev pub is_admin : UserRole → Bool
is_admin admin = true
is_admin _ = false

pub record User : Type 0 where
  pub id : ℕ
  pub email : Text
  pub password_hash : Text
  pub display_name : Option Text
  pub role : UserRole
  pub last_login_at : Option ℕ

pub data ProviderStatus : Type 0 where
  draft published archived : ProviderStatus

abbrev pub is_published : ProviderStatus → Bool
is_published published = true
is_published _ = false

pub record Provider : Type 0 where
  pub id : ℕ
  pub slug : Text
  pub display_name : Text
  pub description : Option Text
  pub website : Option Text
  pub email : Option Text
  pub phone : Option Text
  pub address : Option Text
  pub logo_url : Option Text
  pub city_id : Option ℕ
  pub status : ProviderStatus
  pub is_claimed : Bool
  pub claimed_by_user_id : Option ℕ
