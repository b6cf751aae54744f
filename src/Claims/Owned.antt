-- ===== src/Claims/Owned.antt =====
-- Who edits a company, and what an edit leaves alone: `update_owned_provider` of services/claims.py.
use ozzb2b.Shared.{
  ℕ, ◌≡◌, refl, ap, ◌∙◌, ◌⊎◌, inl, inr, Bool, true, not, Option, none, some, List, [], ◌∷◌, map,
  ◌==◌, nat_eq, Text, select, update, arith, Bool-cases, err,
}
use ozzb2b.Errors.{error, permission}
use ozzb2b.Domain.{User, Provider, ProviderStatus}
use ozzb2b.Claims.{ClaimsDb}
use ozzb2b.Claims.Editing.{
  EditedField, display_name, description, email, phone, address, logo_url, EditedProvider,
  set_field, set_fields, edited, edited_row, name_or, flush_edit, unless_blank,
  user_may_edit_provider, update_owned_provider,
}

-- the columns that are not the owner's to change
pub record Kept : Type 0 where
  pub id : ℕ
  pub slug : Text
  pub website : Option Text
  pub city_id : Option ℕ
  pub status : ProviderStatus
  pub is_claimed : Bool
  pub claimed_by_user_id : Option ℕ

abbrev pub kept : Provider → Kept
kept p = record {
  id = p.id;
  slug = p.slug;
  website = p.website;
  city_id = p.city_id;
  status = p.status;
  is_claimed = p.is_claimed;
  claimed_by_user_id = p.claimed_by_user_id;
}

kept-set_field :
    (field : EditedField) (value : Option Text) (e : EditedProvider)
    → kept (set_field field value e).row ≡ kept e.row
unfolding set_field
kept-set_field display_name value e = refl
kept-set_field description value e = refl
kept-set_field email value e = refl
kept-set_field phone value e = refl
kept-set_field address value e = refl
kept-set_field logo_url value e = refl

kept-set_fields :
    (fields : List (EditedField × Option Text)) (e : EditedProvider)
    → kept (set_fields fields e).row ≡ kept e.row
unfolding set_fields
kept-set_fields [] e = refl
kept-set_fields ((field, value) ∷ fields) e =
    kept-set_fields fields (set_field field (unless_blank value) e)
    ∙ kept-set_field field (unless_blank value) e

map-update :
    {A B : Type 0} (g : A → B) (p : A → Bool) (f : A → A) (xs : List A)
    → ((x : A) → g (f x) ≡ g x)
    → map g (update p f xs) ≡ map g xs
unfolding update
map-update g p f [] h = refl
map-update g p f (x ∷ xs) h = elim (Bool-cases (p x)) [
  | inl e ↦ rw e (cc (h x, map-update g p f xs h))
  | inr e ↦ rw e (cc (map-update g p f xs h))
]

select-update_other :
    {A : Type 0} (p : A → Bool) (f : A → A) (xs : List A)
    → ((x : A) → p (f x) ≡ p x)
    → select (λ x. not (p x)) (update p f xs) ≡ select (λ x. not (p x)) xs
unfolding select update
select-update_other p f [] h = refl
select-update_other p f (x ∷ xs) h = ground (arith, h x, select-update_other p f xs h)

module _ (provider : Provider) (fields : List (EditedField × Option Text)) where
  write : Provider → Provider
  write p = edited_row fields (name_or (edited fields p).name p.display_name) p

  kept-write : (p : Provider) → kept (write p) ≡ kept p
  unfolding write
  kept-write p = kept-set_fields fields (record { name = some p.display_name; row = p })

  -- the tables after an edit, by an owner or not
  pub record Intact (db db' : ClaimsDb) : Type 0 where
    pub users : db'.users ≡ db.users
    pub claims : db'.claims ≡ db.claims
    pub columns : map kept db'.providers ≡ map kept db.providers
    pub others :
        select (λ (p : Provider). not (p.id == provider.id)) db'.providers
        ≡ select (λ (p : Provider). not (p.id == provider.id)) db.providers

  flush_edit-Intact :
      (name : Option Text) (db : ClaimsDb) → Intact db (flush_edit fields provider name db).1
  unfolding flush_edit write
  flush_edit-Intact none db = record { users = refl; claims = refl; columns = refl; others = refl }
  flush_edit-Intact (some name) db = record {
    users = refl;
    claims = refl;
    columns = map-update kept (λ p. p.id == provider.id) write db.providers kept-write;
    others =
        select-update_other (λ p. p.id == provider.id) write db.providers
          (λ p. ap (λ (k : Kept). k.id == provider.id) (kept-write p));
  }

  -- A provider is edited by an administrator or by the user who claimed it, and for anyone else the
  -- answer is the permission error with the tables as they were. In every case users, claims and the
  -- other providers stay as they are, and so do the slug, the website, the city, the status and the claim
  -- of the provider that is edited.
  pub update_owned_provider_safety :
      (user : User) (db : ClaimsDb)
      → ((user_may_edit_provider user provider ≡ true)
          ⊎ (update_owned_provider provider user fields db
              ≡ (err (error permission "not an owner of this provider"), db)))
        × Intact db (update_owned_provider provider user fields db).1
  unfolding update_owned_provider
  update_owned_provider_safety user db = elim (Bool-cases (user_may_edit_provider user provider)) [
    | inl e ↦ (inl e, rw e (flush_edit-Intact (edited fields provider).name db))
    | inr e ↦ rw e (inr refl, record { users = refl; claims = refl; columns = refl; others = refl })
  ]
