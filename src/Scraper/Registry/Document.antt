-- ===== src/Scraper/Registry/Document.antt =====
-- The records of the registry and the items made of them, in
-- apps/scraper/src/ozzb2b_scraper/spiders/ru_fns_sme_registry.py.
use ozzb2b.Shared.{
  ℕ, ◌+◌, Bool, true, false, ◌&&◌, Option, none, some, List, [], ◌∷◌, ◌++◌, ◌==◌, text_eq, leb,
  if◌then◌else◌, Text, codes, is_truthy, or_empty, find, Result, ok, err,
}
use ozzb2b.Errors.{Error}
use ozzb2b.Leads.Form.{is_digits, int_of}
use ozzb2b.Scraper.{ScrapedProvider, JsonValue, null, string_value, int_value}
use ozzb2b.Scraper.Registry.{
  Element, children_of, attribute, required, child, all_tagged, OkvedMapping, FnsSmeRecord,
  map_okved_to_categories, clean_text, full_name_from_ip, infer_legal_form,
}

unfoldable pub region_to_city : List (Text × Text)
region_to_city =
    (codes "77", codes "Moscow")
    ∷ (codes "78", codes "Saint Petersburg")
    ∷ (codes "54", codes "Novosibirsk")
    ∷ (codes "66", codes "Yekaterinburg")
    ∷ (codes "16", codes "Kazan")
    ∷ (codes "52", codes "Nizhny Novgorod")
    ∷ (codes "63", codes "Samara")
    ∷ (codes "73", codes "Ulyanovsk")
    ∷ (codes "36", codes "Voronezh")
    ∷ (codes "55", codes "Omsk")
    ∷ (codes "43", codes "Kirov")
    ∷ (codes "59", codes "Perm")
    ∷ (codes "61", codes "Rostov-on-Don")
    ∷ (codes "23", codes "Krasnodar")
    ∷ []

unfoldable pub region_city : Text → Option Text
region_city code = elim (find (λ kv. kv.0 == code) region_to_city) [
  | none ↦ none
  | some kv ↦ some kv.1
]

-- the first of the tags whose name is given
unfoldable pub named_place : Element → List Text → Option Text
named_place location [] = none
named_place location (tag ∷ tags) =
    let later = named_place location tags in
    elim (child tag location) [
      | none ↦ later
      | some node ↦ (elim (clean_text (attribute (codes "Наим") node)) [
        | none ↦ later
        | some city ↦ some city
      ])
    ]

unfoldable pub city_from_location : Option Element → Text × Option Text
city_from_location none = ([], none)
city_from_location (some location) =
    let region = or_empty (attribute (codes "КодРегион") location) in
    (
      region,
      elim (named_place location (codes "Город" ∷ codes "НаселПункт" ∷ [])) [
        | none ↦ region_city region
        | some city ↦ some city
      ],
    )

unfoldable pub main_then : Option Element → List Element → List Element
main_then none es = es
main_then (some main) es = main ∷ es

-- the main activity before the others
unfoldable pub okved_candidates : Element → List Element
okved_candidates document = elim (child (codes "СвОКВЭД") document) [
  | none ↦ []
  | some okved ↦
      main_then (child (codes "СвОКВЭДОсн") okved)
        (all_tagged (codes "СвОКВЭДДоп") (children_of okved))
]

unfoldable pub mapping_of : Element → Option OkvedMapping
mapping_of node =
    map_okved_to_categories (or_empty (attribute (codes "КодОКВЭД") node))
      (clean_text (attribute (codes "НаимОКВЭД") node))

-- the loop over the candidates
unfoldable pub first_mapping : List Element → Option OkvedMapping
first_mapping [] = none
first_mapping (e ∷ es) =
    let rest = first_mapping es in elim (mapping_of e) [ none ↦ rest | some m ↦ some m ]

unfoldable pub employee_range : Option ℕ → Option Text
employee_range none = none
employee_range (some n) = some (
    if leb n 10
    then codes "1-10"
    else if leb n 50
    then codes "11-50"
    else if leb n 200
    then codes "51-200"
    else if leb n 500
    then codes "200-500"
    else if leb n 1000
    then codes "500-1000"
    else codes "1000+")

-- names and identifiers of a subject
pub record Subject : Type 0 where
  pub display_name : Option Text
  pub legal_name : Option Text
  pub tax_id : Text
  pub registration_number : Text
  pub is_ip : Bool

infixl 5 ◌>>=◌
abbrev ◌>>=◌ : {A B : Type 0} → Result Error A → (A → Result Error B) → Result Error B
◌>>=◌ (ok a) f = f a
◌>>=◌ (err e) f = err e

-- `_clean_text(a) or b`
unfoldable pub name_or : Option Text → Option Text → Option Text
name_or none b = b
name_or (some a) b = some a

unfoldable pub subject_of_org : Element → Result Error Subject
subject_of_org org = do
  name ← required (codes "НаимОрг") org
  tax_id ← required (codes "ИННЮЛ") org
  number ← required (codes "ОГРН") org
  ok (record {
    display_name =
        name_or (clean_text (attribute (codes "НаимОргСокр") org)) (clean_text (some name));
    legal_name = clean_text (some name);
    tax_id = tax_id;
    registration_number = number;
    is_ip = false;
  })

pub subject_of_ip : Element → Result Error Subject
subject_of_ip ip = do
  tax_id ← required (codes "ИННФЛ") ip
  number ← required (codes "ОГРНИП") ip
  ok (record {
    display_name = full_name_from_ip ip;
    legal_name = full_name_from_ip ip;
    tax_id = tax_id;
    registration_number = number;
    is_ip = true;
  })

-- `int(raw) if raw and raw.isdigit() else None`
pub count_of : Option Text → Option ℕ
count_of none = none
count_of (some raw) = if is_truthy raw && is_digits raw then some (int_of raw) else none

unfoldable pub record_of : Element → Subject → Text → Text → OkvedMapping → FnsSmeRecord
record_of document s display_name legal_name mapping =
    let place = city_from_location (child (codes "СведМН") document) in
    record {
      source_id = s.tax_id;
      display_name = display_name;
      legal_name = legal_name;
      legal_form_code = infer_legal_form legal_name s.is_ip;
      tax_id = s.tax_id;
      registration_number = s.registration_number;
      region_code = place.0;
      city_name = place.1;
      okved_code = mapping.matched_code;
      okved_name = mapping.matched_name;
      category_slugs = mapping.category_slugs;
      included_at = attribute (codes "ДатаВклМСП") document;
      sme_subject_kind = attribute (codes "ВидСубМСП") document;
      sme_category = attribute (codes "КатСубМСП") document;
      employee_count = count_of (attribute (codes "ССЧР") document);
    }

unfoldable pub record_if : Element → Subject → Option FnsSmeRecord
record_if document s = elim s.display_name [
  | none ↦ none
  | some display_name ↦ (elim s.legal_name [
    | none ↦ none
    | some legal_name ↦ (elim (first_mapping (okved_candidates document)) [
      | none ↦ none
      | some mapping ↦ some (record_of document s display_name legal_name mapping)
    ])
  ])
]

unfoldable pub parse_document : Element → Result Error (Option FnsSmeRecord)
parse_document document = elim (child (codes "ОргВклМСП") document) [
  | some org ↦ subject_of_org org >>= λ s. ok (record_if document s)
  | none ↦ (elim (child (codes "ИПВклМСП") document) [
    | none ↦ ok none
    | some ip ↦ subject_of_ip ip >>= λ s. ok (record_if document s)
  ])
]

abbrev json_or_null : Option Text → JsonValue
json_or_null none = null
json_or_null (some s) = string_value s

abbrev json_count : Option ℕ → JsonValue
json_count none = null
json_count (some n) = int_value n

pub describe : Option Text → Text
describe okved_name =
    let base = codes "Российская компания из единого реестра субъектов МСП ФНС." in
    elim okved_name [
      | none ↦ base
      | some name ↦
          if is_truthy name then base ++ codes " Основной ОКВЭД: " ++ name ++ codes "." else base
    ]

unfoldable pub record_to_provider : FnsSmeRecord → ScrapedProvider
record_to_provider r = record {
  source = codes "ru-fns-sme-registry";
  source_id = r.source_id;
  source_url = some (codes "https://www.nalog.gov.ru/opendata/7707329152-rsmp");
  display_name = r.display_name;
  legal_name = some r.legal_name;
  description = some (describe r.okved_name);
  country_code = some (codes "RU");
  city_name = r.city_name;
  legal_form_code = some r.legal_form_code;
  website = none;
  email = none;
  phone = none;
  address = none;
  registration_number = some r.registration_number;
  tax_id = some r.tax_id;
  year_founded = none;
  employee_count_range = employee_range r.employee_count;
  category_slugs = r.category_slugs;
  meta =
      (codes "fns_sme_region_code", string_value r.region_code)
      ∷ (codes "fns_sme_okved_code", string_value r.okved_code)
      ∷ (codes "fns_sme_okved_name", json_or_null r.okved_name)
      ∷ (codes "fns_sme_included_at", json_or_null r.included_at)
      ∷ (codes "fns_sme_subject_kind", json_or_null r.sme_subject_kind)
      ∷ (codes "fns_sme_category", json_or_null r.sme_category)
      ∷ (codes "fns_sme_employee_count", json_count r.employee_count)
      ∷ [];
}

-- `ctx.limit is not None and yielded >= ctx.limit`
unfoldable pub is_reached : Option ℕ → ℕ → Bool
is_reached none yielded = false
is_reached (some limit) yielded = leb limit yielded

-- what the spider yields, and how it ends; a document that raises ends it
unfoldable pub crawl : Option ℕ → ℕ → List Element → List ScrapedProvider × Result Error Unit
crawl limit yielded [] = ([], ok tt)
crawl limit yielded (document ∷ documents) =
    let skipped = crawl limit yielded documents in
    let rest = crawl limit (yielded + 1) documents in
    elim (parse_document document) [
      | err e ↦ ([], err e)
      | ok none ↦ skipped
      | ok (some r) ↦
          if is_reached limit yielded then ([], ok tt) else (record_to_provider r ∷ rest.0, rest.1)
    ]
