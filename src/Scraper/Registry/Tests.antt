-- ===== src/Scraper/Registry/Tests.antt =====
-- Documents of the registry, and the theorems on the importer applied there.
use ozzb2b.Shared.{
  ℕ, ◌+◌, ◌≡◌, refl, Bool, true, false, Option, none, some, List, [], ◌∷◌, Text, codes, take, map,
  All, Result, ok,
}
use ozzb2b.Scraper.{Externals, ScrapedProvider, ScrapeDb, Draw}
use ozzb2b.Scraper.Registry.{Element, element, Elements, no_more, child_then, infer_legal_form}
use ozzb2b.Scraper.Registry.Document.{crawl, employee_range}

-- a company with an INN, whose second activity is software
abbrev company : Text → Element
company inn = element (codes "Документ") ((codes "ССЧР", codes "12") ∷ []) (
    child_then
      (element (codes "ОргВклМСП")
        ((codes "НаимОрг", codes " ООО  Код ")
          ∷ (codes "ИННЮЛ", inn)
          ∷ (codes "ОГРН", codes "1")
          ∷ [])
        no_more)
      (child_then (element (codes "СведМН") ((codes "КодРегион", codes "16") ∷ []) no_more) (
        child_then
          (element (codes "СвОКВЭД") [] (
            child_then
              (element (codes "СвОКВЭДОсн") ((codes "КодОКВЭД", codes "01.1") ∷ []) no_more)
              (child_then
                (element (codes "СвОКВЭДДоп") ((codes "КодОКВЭД", codes "62.01") ∷ []) no_more)
                no_more)))
          no_more)))

abbrev documents : List Element
documents = company (codes "7") ∷ company (codes "8") ∷ []

names :
    map (λ i. i.display_name) (crawl none 0 documents).0 ≡ codes "ООО Код" ∷ codes "ООО Код" ∷ []
unfolding crawl ozzb2b.Scraper.Registry.Document.parse_document ozzb2b.Scraper.Registry.child
    ozzb2b.Scraper.Registry.first_tagged ozzb2b.Scraper.Registry.children_of ozzb2b.Shared.list_beq
    ozzb2b.Scraper.Registry.tag_of ozzb2b.Scraper.Registry.Document.subject_of_org
    ozzb2b.Scraper.Registry.required ozzb2b.Scraper.Registry.attribute ozzb2b.Shared.find
    ozzb2b.Scraper.Registry.Document.record_if ozzb2b.Scraper.Registry.Document.name_or
    ozzb2b.Scraper.Registry.clean_text ozzb2b.Scraper.Registry.join_words
    ozzb2b.Scraper.Registry.words_from ozzb2b.Shared.is_space
    ozzb2b.Scraper.Registry.Document.first_mapping ozzb2b.Scraper.Registry.Document.okved_candidates
    ozzb2b.Scraper.Registry.Document.main_then ozzb2b.Scraper.Registry.Document.mapping_of
    ozzb2b.Scraper.Registry.map_okved_to_categories ozzb2b.Shared.strip ozzb2b.Shared.rstrip
    ozzb2b.Shared.lstrip ozzb2b.Scraper.Registry.okved_slugs ozzb2b.Shared.has_prefix
    ozzb2b.Scraper.Registry.all_tagged ozzb2b.Scraper.Registry.Document.is_reached
    ozzb2b.Scraper.Registry.Document.record_to_provider ozzb2b.Scraper.Registry.Document.record_of
names = refl

cities : map (λ i. i.city_name) (crawl (some 1) 0 documents).0 ≡ some (codes "Kazan") ∷ []
unfolding crawl ozzb2b.Scraper.Registry.Document.parse_document ozzb2b.Scraper.Registry.child
    ozzb2b.Scraper.Registry.first_tagged ozzb2b.Scraper.Registry.children_of ozzb2b.Shared.list_beq
    ozzb2b.Scraper.Registry.tag_of ozzb2b.Scraper.Registry.Document.subject_of_org
    ozzb2b.Scraper.Registry.required ozzb2b.Scraper.Registry.attribute ozzb2b.Shared.find
    ozzb2b.Scraper.Registry.Document.record_if ozzb2b.Scraper.Registry.Document.name_or
    ozzb2b.Scraper.Registry.clean_text ozzb2b.Scraper.Registry.join_words
    ozzb2b.Scraper.Registry.words_from ozzb2b.Shared.is_space
    ozzb2b.Scraper.Registry.Document.first_mapping ozzb2b.Scraper.Registry.Document.okved_candidates
    ozzb2b.Scraper.Registry.Document.main_then ozzb2b.Scraper.Registry.Document.mapping_of
    ozzb2b.Scraper.Registry.map_okved_to_categories ozzb2b.Shared.strip ozzb2b.Shared.rstrip
    ozzb2b.Shared.lstrip ozzb2b.Scraper.Registry.okved_slugs ozzb2b.Shared.has_prefix
    ozzb2b.Scraper.Registry.all_tagged ozzb2b.Scraper.Registry.Document.is_reached
    ozzb2b.Scraper.Registry.Document.record_to_provider ozzb2b.Scraper.Registry.Document.record_of
    ozzb2b.Scraper.Registry.Document.city_from_location ozzb2b.Scraper.Registry.Document.named_place
    ozzb2b.Scraper.Registry.Document.region_city ozzb2b.Scraper.Registry.Document.region_to_city
cities = refl

staff : employee_range (some 12) ≡ some (codes "11-50")
unfolding employee_range
staff = refl

-- the letters of another legal form inside a name decide
pharaoh : infer_legal_form (codes "ООО Фараон") false ≡ codes "AO"
unfolding infer_legal_form ozzb2b.Shared.has_infix ozzb2b.Shared.has_prefix
    ozzb2b.Scraper.Registry.upper_char
pharaoh = refl
