-- ===== src/Claims/Editing.antt =====
-- The edits of an owner and the lists of claims: the rest of apps/api/src/ozzb2b_api/services/claims.py.
-- An UPDATE writes the columns of the fields that the request sets.
use ozzb2b.Shared.{
  ℕ, Bool, ◌&&◌, ◌||◌, Option, none, some, List, [], ◌∷◌, ◌==◌, nat_eq, option_nat_eq,
  if◌then◌else◌, leb, Text, strip, is_truthy, select, update, sort_by, Exec, ok, err, ◌>>◌, guard,
}
use ozzb2b.Errors.{Error, error, permission, violation}
use ozzb2b.Domain.{User, is_admin, Provider}
use ozzb2b.Claims.{ClaimsDb, ProviderClaim, is_pending}

-- the fields of ProviderUpdateRequest
pub data EditedField : Type 0 where
  display_name description email phone address logo_url : EditedField

unfoldable pub user_may_edit_provider : User → Provider → Bool
user_may_edit_provider user provider =
    is_admin user.role || provider.is_claimed && provider.claimed_by_user_id == some user.id

-- a blank text is set as None
abbrev pub unless_blank : Option Text → Option Text
unless_blank none = none
unless_blank (some s) = if is_truthy (strip s) then some s else none

-- the row as the loop of `setattr` leaves it in memory, where the name may be None
pub record EditedProvider : Type 0 where
  pub name : Option Text
  pub row : Provider

unfoldable pub set_field : EditedField → Option Text → EditedProvider → EditedProvider
set_field display_name value e = record e { name = value }
set_field description value e = record e { row = record e.row { description = value } }
set_field email value e = record e { row = record e.row { email = value } }
set_field phone value e = record e { row = record e.row { phone = value } }
set_field address value e = record e { row = record e.row { address = value } }
set_field logo_url value e = record e { row = record e.row { logo_url = value } }

unfoldable pub set_fields : List (EditedField × Option Text) → EditedProvider → EditedProvider
set_fields [] e = e
set_fields ((field, value) ∷ fields) e = set_fields fields (set_field field (unless_blank value) e)

abbrev pub edited : List (EditedField × Option Text) → Provider → EditedProvider
edited fields p = set_fields fields (record { name = some p.display_name; row = p })

-- the stored row after the UPDATE of the fields that are set
abbrev pub edited_row : List (EditedField × Option Text) → Text → Provider → Provider
edited_row fields name p = record (edited fields p).row { display_name = name }

abbrev pub name_or : Option Text → Text → Text
name_or none name = name
name_or (some n) name = n

-- the flush and the commit: display_name is NOT NULL
unfoldable pub flush_edit :
    List (EditedField × Option Text) → Provider → Option Text → Exec ClaimsDb Error Provider
flush_edit fields provider none db = (err violation, db)
flush_edit fields provider (some name) db = (
  ok (edited_row fields name provider),
  record db {
    providers =
        update (λ (p : Provider). p.id == provider.id)
          (λ p. edited_row fields (name_or (edited fields p).name p.display_name) p) db.providers;
  },
)

unfoldable pub update_owned_provider :
    Provider → User → List (EditedField × Option Text) → Exec ClaimsDb Error Provider
update_owned_provider provider user fields = do
  guard (user_may_edit_provider user provider) (error permission "not an owner of this provider")
  flush_edit fields provider (edited fields provider).name

-- ORDER BY created_at, the column that each claim was inserted with
module _ (created_at : ProviderClaim → ℕ) where
  pub list_claims_for_user : ClaimsDb → User → List ProviderClaim
  list_claims_for_user db user =
      sort_by (λ c d. leb (created_at d) (created_at c))
        (select (λ (c : ProviderClaim). c.user_id == user.id) db.claims)

  pub list_pending_claims : ClaimsDb → List ProviderClaim
  list_pending_claims db =
      sort_by (λ c d. leb (created_at c) (created_at d))
        (select (λ c. is_pending c.status) db.claims)

-- ORDER BY display_name under the collation `name_le`
pub list_owned_providers : (Text → Text → Bool) → ClaimsDb → User → List Provider
list_owned_providers name_le db user =
    sort_by (λ (p q : Provider). name_le p.display_name q.display_name)
      (select (λ (p : Provider). p.claimed_by_user_id == some user.id) db.providers)
