-- ===== src/Leads/Create.antt =====
-- create_lead: apps/api/src/ozzb2b_api/services/leads.py. A lead is stored with one draft for each
-- matching provider; ids and the clock are arguments.
pub mod Stored
use ozzb2b.Shared.{
  ℕ, suc, Bool, Option, none, some, List, [], ◌∷◌, ◌==◌, nat_eq, text_eq, Text, strip, normalize,
  or_empty, or_none, prefix, length, find, select, Exec, ok, ◌>>=◌, ◌>>◌, pure, gets, or_raise,
  modify, scalar_one_or_none,
}
use ozzb2b.Errors.{Error, error, multiple, not_found}
use ozzb2b.Domain.{Provider}
use ozzb2b.Leads.Data.{
  Lead, LeadStatus, OutreachMessage, OutreachStatus, LeadsDb, Category, City, LeadSettings,
  add_message,
}
use ozzb2b.Leads.Match.{match_providers}
use ozzb2b.Leads.Draft.{render_draft}

pub record LeadInput : Type 0 where
  pub category_slug : Text
  pub city_id : Option ℕ
  pub description : Text
  pub budget : Option Text
  pub contact_name : Text
  pub contact_email : Text
  pub contact_phone : Option Text
  pub company_name : Option Text
  pub source_ip : Option Text
  pub user_agent : Option Text

-- `(x or "").strip() or None`
abbrev pub stripped : Option Text → Option Text
stripped o = or_none (strip (or_empty o))

-- `await session.get(City, data.city_id) if data.city_id is not None else None`
unfoldable pub city_of : LeadsDb → Option ℕ → Option City
city_of db none = none
city_of db (some i) = find (λ (c : City). c.id == i) db.cities

abbrev pub city_id_of : Option City → Option ℕ
city_id_of none = none
city_id_of (some c) = some c.id

unfoldable pub new_lead : ℕ → ℕ → Category → Option City → LeadInput → Lead
new_lead id now category city i = record {
  id = id;
  category_id = some category.id;
  city_id = city_id_of city;
  description = strip i.description;
  budget = stripped i.budget;
  contact_name = strip i.contact_name;
  contact_email = normalize i.contact_email;
  contact_phone = stripped i.contact_phone;
  company_name = stripped i.company_name;
  consent_at = now;
  status = LeadStatus.new;
  source_ip = i.source_ip;
  user_agent = or_none (prefix 255 (or_empty i.user_agent));
  admin_note = none;
}

module _ (cfg : LeadSettings) (name_le : Text → Text → Bool) where
  unfoldable pub new_draft : LeadsDb → Lead → Provider → ℕ → OutreachMessage
  new_draft db lead p id = record {
    id = id;
    lead_id = lead.id;
    provider_id = p.id;
    to_email = normalize (or_empty p.email);
    subject = (render_draft cfg db lead p).0;
    body = (render_draft cfg db lead p).1;
    status = OutreachStatus.draft;
    sent_at = none;
    error = none;
  }

  -- the loop over the matching providers; `id k` is the id of the k-th draft
  unfoldable pub add_drafts : Lead → (ℕ → ℕ) → ℕ → List Provider → Exec LeadsDb Error Unit
  add_drafts lead id k [] db = (ok tt, db)
  add_drafts lead id k (p ∷ ps) db =
      (add_message (new_draft db lead p (id k)) >> add_drafts lead id (suc k) ps) db

  unfoldable pub store_drafts : Lead → (ℕ → ℕ) → List Provider → Exec LeadsDb Error (Lead × ℕ)
  store_drafts lead id ps = do add_drafts lead id 0 ps; pure (lead, length ps)

  unfoldable pub create_lead : ℕ → (ℕ → ℕ) → ℕ → LeadInput → Exec LeadsDb Error (Lead × ℕ)
  create_lead lead_id id now i = do
    found ← λ db. (
      scalar_one_or_none multiple
          (select (λ (c : Category). c.slug == i.category_slug) db.categories),
      db,
    )
    category ← or_raise (error not_found "category not found") found
    lead ← gets (λ db. new_lead lead_id now category (city_of db i.city_id) i)
    modify (λ db. record db { leads = lead ∷ db.leads })
    providers ← gets (λ db. match_providers name_le lead db cfg.lead_max_drafts)
    store_drafts lead id providers
