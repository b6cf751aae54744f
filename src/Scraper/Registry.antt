-- ===== src/Scraper/Registry.antt =====
-- The importer of the registry of small companies:
-- apps/scraper/src/ozzb2b_scraper/spiders/ru_fns_sme_registry.py. The parsing of XML is done before: a
-- document is a tree of elements. The files, their JSONL form and the reading of archives are left out.
pub mod Document
pub mod Crawl
pub mod Tests
use ozzb2b.Shared.{
  has_prefix, has_infix, ℕ, ◌+◌, ◌-◌, Bool, true, false, not, ◌&&◌, ◌||◌, Option, none, some, List,
  [], ◌∷◌, ◌++◌, ◌==◌, nat_eq, text_eq, leb, if◌then◌else◌, Text, codes, strip, is_space, is_truthy,
  or_empty, or_none, find, map, Result, ok, err,
}
use ozzb2b.Errors.{Error, error, key_error}
use ozzb2b.Leads.Form.{is_digits, int_of}
use ozzb2b.Scraper.{ScrapedProvider, Json, JsonValue, null, string_value, int_value}

-- an element of ElementTree: its tag, its attributes and its children
mutual
  pub data Element : Type 0 where
    element : Text → List (Text × Text) → Elements → Element

  pub data Elements : Type 0 where
    no_more : Elements
    child_then : Element → Elements → Elements

pub tag_of : Element → Text
tag_of (element tag attrib children) = tag

pub children_of : Element → Elements
children_of (element tag attrib children) = children

-- `attrib.get(name)`
pub attribute : Text → Element → Option Text
attribute name (element tag attrib children) = elim (find (λ kv. kv.0 == name) attrib) [
  | none ↦ none
  | some kv ↦ some kv.1
]

-- `attrib[name]`
pub required : Text → Element → Result Error Text
required name e = elim (attribute name e) [
  | none ↦ err (error key_error "missing attribute")
  | some v ↦ ok v
]

-- `find` and `findall` of a tag among the children
pub first_tagged : Text → Elements → Option Element
first_tagged tag no_more = none
first_tagged tag (child_then e es) =
    let rest = first_tagged tag es in if tag_of e == tag then some e else rest

pub all_tagged : Text → Elements → List Element
all_tagged tag no_more = []
all_tagged tag (child_then e es) =
    let rest = all_tagged tag es in if tag_of e == tag then e ∷ rest else rest

pub child : Text → Element → Option Element
child tag e = first_tagged tag (children_of e)

pub record OkvedMapping : Type 0 where
  pub category_slugs : List Text
  pub matched_code : Text
  pub matched_name : Option Text

pub record FnsSmeRecord : Type 0 where
  pub source_id : Text
  pub display_name : Text
  pub legal_name : Text
  pub legal_form_code : Text
  pub tax_id : Text
  pub registration_number : Text
  pub region_code : Text
  pub city_name : Option Text
  pub okved_code : Text
  pub okved_name : Option Text
  pub category_slugs : List Text
  pub included_at : Option Text
  pub sme_subject_kind : Option Text
  pub sme_category : Option Text
  pub employee_count : Option ℕ

-- the chain of tests on a code, in the order of the source
pub okved_slugs : Text → Option (List Text)
okved_slugs code =
    if has_prefix (codes "62.") code
    then some (codes "it" ∷ codes "software-development" ∷ [])
    else if has_prefix (codes "63.1") code
    then some (codes "it" ∷ codes "data-analytics" ∷ [])
    else if has_prefix (codes "58.2") code
    then some (codes "it" ∷ codes "software-development" ∷ [])
    else if code == codes "74.10"
    then some (codes "it" ∷ codes "ui-ux-design" ∷ [])
    else if has_prefix (codes "69.20") code
    then some (codes "accounting" ∷ codes "bookkeeping" ∷ codes "tax-advisory" ∷ [])
    else if has_prefix (codes "69.10") code
    then some (codes "legal" ∷ codes "corporate-law" ∷ codes "contracts" ∷ [])
    else if has_prefix (codes "73.11") code || has_prefix (codes "73.12") code
    then some (codes "marketing" ∷ codes "paid-media" ∷ [])
    else if has_prefix (codes "73.") code
    then some (codes "marketing" ∷ [])
    else if has_prefix (codes "70.21") code
    then some (codes "marketing" ∷ codes "pr" ∷ [])
    else if has_prefix (codes "78.10") code
    then some (codes "hr" ∷ codes "recruiting" ∷ [])
    else if has_prefix (codes "78.20") code || has_prefix (codes "78.30") code
    then some (codes "hr" ∷ codes "staffing" ∷ [])
    else if has_prefix (codes "85.42") code
    then some (codes "hr" ∷ codes "training" ∷ [])
    else none

pub map_okved_to_categories : Text → Option Text → Option OkvedMapping
map_okved_to_categories code name =
    if not (is_truthy (strip code)) then none else (elim (okved_slugs (strip code)) [
      | none ↦ none
      | some slugs ↦
          some (record { category_slugs = slugs; matched_code = strip code; matched_name = name })
    ])

-- `s.split()` with the word that is being read
pub words_from : Text → Text → List Text
words_from word [] = if is_truthy word then word ∷ [] else []
words_from word (c ∷ s) =
    let fresh = words_from [] s in
    let longer = words_from (word ++ c ∷ []) s in
    if is_space c then (if is_truthy word then word ∷ fresh else fresh) else longer

pub join_words : List Text → Text
join_words [] = []
join_words (w ∷ []) = w
join_words (w ∷ v ∷ ws) = w ++ b' ' ∷ join_words (v ∷ ws)

pub clean_text : Option Text → Option Text
clean_text none = none
clean_text (some value) = or_none (join_words (words_from [] value))

-- the parts that are not empty
pub given_parts : List (Option Text) → List Text
given_parts [] = []
given_parts (none ∷ ps) = given_parts ps
given_parts (some p ∷ ps) = if is_truthy p then p ∷ given_parts ps else given_parts ps

pub full_name_from_ip : Element → Option Text
full_name_from_ip node = elim (child (codes "ФИОИП") node) [
  | none ↦ none
  | some fio ↦
      let name = join_words (
        given_parts (
          clean_text (attribute (codes "Фамилия") fio)
          ∷ clean_text (attribute (codes "Имя") fio)
          ∷ clean_text (attribute (codes "Отчество") fio)
          ∷ [])) in
      if is_truthy name then some (codes "ИП " ++ name) else none
]

-- `str.upper` of the Latin and Cyrillic letters
pub upper_char : ℕ → ℕ
upper_char c =
    if (leb b'a' c && leb c b'z') || (leb 0x430 c && leb c 0x44f)
    then c - 32
    else if leb 0x450 c && leb c 0x45f
    then c - 80
    else c

pub infer_legal_form : Text → Bool → Text
infer_legal_form name is_ip =
    let upper = map upper_char name in
    if is_ip
    then codes "IP"
    else if has_infix (codes "ПАО") upper
    then codes "PAO"
    else if has_infix (codes "АО") upper || has_infix (codes "АКЦИОНЕРНОЕ ОБЩЕСТВО") upper
    then codes "AO"
    else if has_infix (codes "ООО") upper
        || has_infix (codes "ОБЩЕСТВО С ОГРАНИЧЕННОЙ ОТВЕТСТВЕННОСТЬЮ") upper
    then codes "OOO"
    else codes "UNK"
