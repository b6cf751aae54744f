-- ===== src/Scraper/Kept.antt =====
-- What a second write of the same item leaves of a row: `updated_row` and `new_row` of pipeline.py.
use ozzb2b.Shared.{ℕ, ◌≡◌, refl, Option, none, some, Text, Option-cases, inl, inr, arith}
use ozzb2b.Scraper.{ScrapedProvider, ProviderRow, Draw}
use ozzb2b.Scraper.Lookup.{filled}
use ozzb2b.Scraper.Upsert.{coalesce, text_over, updated_row, new_row}

-- two rows with the same data: all columns but the references, the URL of the source, the metadata
-- and the time
pub record SameData (p q : ProviderRow) : Type 0 where
  pub id : q.id ≡ p.id
  pub slug : q.slug ≡ p.slug
  pub legal_name : q.legal_name ≡ p.legal_name
  pub display_name : q.display_name ≡ p.display_name
  pub description : q.description ≡ p.description
  pub website : q.website ≡ p.website
  pub email : q.email ≡ p.email
  pub phone : q.phone ≡ p.phone
  pub address : q.address ≡ p.address
  pub registration_number : q.registration_number ≡ p.registration_number
  pub tax_id : q.tax_id ≡ p.tax_id
  pub year_founded : q.year_founded ≡ p.year_founded
  pub employee_count_range : q.employee_count_range ≡ p.employee_count_range
  pub source : q.source ≡ p.source
  pub source_id : q.source_id ≡ p.source_id
  pub status : q.status ≡ p.status
  pub is_claimed : q.is_claimed ≡ p.is_claimed

-- a row that holds the item's data already
abbrev pub Holds : ScrapedProvider → ProviderRow → Type 0
Holds item p =
    (draw : Draw) (refs : Option ℕ × Option ℕ × Option ℕ)
    → SameData p (updated_row draw item refs p)

coalesce-filled : (o : Option Text) → coalesce (filled o) o ≡ o
unfolding coalesce filled
coalesce-filled none = refl
coalesce-filled (some t) = ground arith

coalesce_self : {A : Type 0} (o : Option A) → coalesce o o ≡ o
unfolding coalesce
coalesce_self none = refl
coalesce_self (some a) = refl

coalesce_idem : {A : Type 0} (a b : Option A) → coalesce a (coalesce a b) ≡ coalesce a b
unfolding coalesce
coalesce_idem none b = refl
coalesce_idem (some a) b = refl

coalesce-right : {A : Type 0} (a b : Option A) → coalesce (coalesce a b) b ≡ coalesce a b
unfolding coalesce
coalesce-right none none = refl
coalesce-right none (some b) = refl
coalesce-right (some a) b = refl

text_over_idem : (o : Option Text) (t : Text) → text_over o (text_over o t) ≡ text_over o t
unfolding text_over
text_over_idem o t = elim (Option-cases (filled o)) [
  | inl e ↦ rw (e, text_over) (rw (e, text_over) refl)
  | inr (s, e) ↦ rw (e, text_over) refl
]

text_over_self : (t : Text) → text_over (some t) t ≡ t
unfolding text_over filled
text_over_self t = ground arith

pub new_row-Holds :
    (draw : Draw) (item : ScrapedProvider) (refs : Option ℕ × Option ℕ × Option ℕ) (slug : Text)
    → Holds item (new_row draw item refs slug)
unfolding new_row updated_row coalesce
new_row-Holds draw item refs slug again refs' = record {
  id = refl;
  slug = refl;
  legal_name = text_over_idem item.legal_name item.display_name;
  display_name = text_over_self item.display_name;
  description = coalesce-filled item.description;
  website = coalesce-filled item.website;
  email = coalesce-filled item.email;
  phone = coalesce-filled item.phone;
  address = coalesce-filled item.address;
  registration_number = coalesce-filled item.registration_number;
  tax_id = coalesce-filled item.tax_id;
  year_founded = coalesce_self item.year_founded;
  employee_count_range = coalesce-filled item.employee_count_range;
  source = refl;
  source_id = refl;
  status = refl;
  is_claimed = refl;
}

pub updated_row-Holds :
    (draw : Draw) (item : ScrapedProvider) (refs : Option ℕ × Option ℕ × Option ℕ) (p : ProviderRow)
    → Holds item (updated_row draw item refs p)
unfolding updated_row
updated_row-Holds draw item refs p again refs' = record {
  id = refl;
  slug = refl;
  legal_name = text_over_idem item.legal_name p.legal_name;
  display_name = text_over_idem (some item.display_name) p.display_name;
  description = coalesce_idem (filled item.description) p.description;
  website = coalesce_idem (filled item.website) p.website;
  email = coalesce_idem (filled item.email) p.email;
  phone = coalesce_idem (filled item.phone) p.phone;
  address = coalesce_idem (filled item.address) p.address;
  registration_number = coalesce_idem (filled item.registration_number) p.registration_number;
  tax_id = coalesce_idem (filled item.tax_id) p.tax_id;
  year_founded = coalesce_idem item.year_founded p.year_founded;
  employee_count_range = coalesce_idem (filled item.employee_count_range) p.employee_count_range;
  source = coalesce-right p.source (some item.source);
  source_id = coalesce-right p.source_id (some item.source_id);
  status = refl;
  is_claimed = refl;
}
