-- ===== src/Scraper/Registry/Crawl.antt =====
-- What the importer yields.
use ozzb2b.Shared.{
  ℕ, zero, suc, ◌+◌, ◌≡◌, refl, ap, inl, inr, true, false, none, some, List, [], ◌∷◌, text_eq, leb,
  take, Result-cases, arith,
}
use ozzb2b.Scraper.Registry.{Element}
use ozzb2b.Scraper.Registry.Document.{parse_document, record_to_provider, is_reached, crawl}

take_none : {A : Type 0} (k : ℕ) → ◌≡◌ {A = List A} [] (take k [])
take_none zero = refl
take_none (suc k) = refl

crawl_from :
    (limit k yielded other : ℕ) (documents : List Element)
    → limit ≡ k + yielded
    → (crawl (some limit) yielded documents).0 ≡ take k (crawl none other documents).0
unfolding crawl is_reached
crawl_from limit k yielded other [] h = take_none k
crawl_from limit zero yielded other (document ∷ documents) h =
    elim (Result-cases (parse_document document)) [
      | inr (e, p) ↦ rw (p, crawl) refl
      | inl (none, p) ↦ rw (p, crawl) (crawl_from limit zero yielded other documents h)
      | inl (some r, p) ↦
          let full : leb limit yielded ≡ true = ground (arith, h) in rw (p, crawl, full) refl
    ]
crawl_from limit (suc k) yielded other (document ∷ documents) h =
    elim (Result-cases (parse_document document)) [
      | inr (e, p) ↦ rw (p, crawl) refl
      | inl (none, p) ↦ rw (p, crawl) (crawl_from limit (suc k) yielded other documents h)
      | inl (some r, p) ↦
          let room : leb limit yielded ≡ false = ground (arith, h) in
          let later = crawl_from limit k (yielded + 1) (other + 1) documents (omega (arith, h)) in
          rw (p, crawl, room) (ap (λ rest. record_to_provider r ∷ rest) later)
    ]

-- The limit of a run cuts what the importer yields: with the limit n it yields the first n items that
-- it yields without a limit, also when a document raises.
pub crawl-take :
    (n : ℕ) (documents : List Element)
    → (crawl (some n) 0 documents).0 ≡ take n (crawl none 0 documents).0
crawl-take n documents = crawl_from n n 0 0 documents (omega arith)
