-- ===== src/Indexer/Batches.antt =====
-- What a full reindex leaves in the index, whatever the batches.
use ozzb2b.Shared.{
  ℕ, ◌+◌, ◌≡◌, refl, sym, ap, ◌∙◌, inl, inr, Bool, true, false, Option, none, some, List, [], ◌∷◌,
  ◌++◌, ◌==◌, nat_eq, eq_iff, if◌then◌else◌, leb, length, find, arith, Bool-cases,
  find-delete_other, length-append,
}
use mathlib.Core.List.{append_assoc, append-nil}
use ozzb2b.Catalog.Data.{CatalogDb}
use ozzb2b.Search.Rerank.{last_of}
use ozzb2b.Indexer.{
  ProviderDoc, SearchIndex, put_doc, add_documents, index_rest, docs_of, ensure_index, reindex_all,
}

add_documents-append :
    (xs ys docs : List ProviderDoc)
    → add_documents (xs ++ ys) docs ≡ add_documents ys (add_documents xs docs)
unfolding add_documents
add_documents-append [] ys docs = refl
add_documents-append (x ∷ xs) ys docs = add_documents-append xs ys (put_doc x docs)

both :
    (xs ys docs : List ProviderDoc) (total : ℕ)
    → ◌≡◌ {A = ℕ × List ProviderDoc}
        (total + length xs + length ys, add_documents ys (add_documents xs docs))
        (total + length (xs ++ ys), add_documents (xs ++ ys) docs)
both xs ys docs total =
    let sum : total + length xs + length ys ≡ total + length (xs ++ ys) =
      omega (arith, length-append xs ys) in
    cc (sum, add_documents-append xs ys docs)

-- the loop adds what is in the batch and what is left
index_rest_lem :
    (size : ℕ) (ds batch docs : List ProviderDoc) (total : ℕ)
    → index_rest size ds batch docs total
      ≡ (total + length (batch ++ ds), add_documents (batch ++ ds) docs)
unfolding index_rest
index_rest_lem size [] [] docs total =
    ap (λ n. (n, docs)) (let e : total ≡ total + 0 = omega arith in e)
    ∙ unfold add_documents in refl
index_rest_lem size [] (b ∷ batch) docs total =
    ap (λ l. (total + length l, add_documents l docs)) (sym (append-nil (b ∷ batch)))
index_rest_lem size (d ∷ ds) batch docs total =
    elim (Bool-cases (leb size (length (batch ++ d ∷ [])))) [
      | inl full ↦ rw full (
          index_rest_lem size ds [] (add_documents (batch ++ d ∷ []) docs)
            (total + length (batch ++ d ∷ []))
          ∙ both (batch ++ d ∷ []) ds docs total
          ∙ regroup)
      | inr room ↦ rw room (index_rest_lem size ds (batch ++ d ∷ []) docs total ∙ regroup)
    ]
  where
    regroup :
        ◌≡◌ {A = ℕ × List ProviderDoc}
          (total + length ((batch ++ d ∷ []) ++ ds), add_documents ((batch ++ d ∷ []) ++ ds) docs)
          (total + length (batch ++ d ∷ ds), add_documents (batch ++ d ∷ ds) docs)
    regroup = ap (λ l. (total + length l, add_documents l docs)) (append_assoc batch (d ∷ []) ds)

abbrev pub has_doc_id : ℕ → ProviderDoc → Bool
has_doc_id id d = d.id == id

find-put_doc :
    (id : ℕ) (d : ProviderDoc) (docs : List ProviderDoc)
    → find (has_doc_id id) (put_doc d docs)
      ≡ (if d.id == id then some d else find (has_doc_id id) docs)
unfolding put_doc find
find-put_doc id d docs = elim (Bool-cases (d.id == id)) [
  | inl e ↦ rw e refl
  | inr e ↦ rw e (
      find-delete_other (λ y. y.id == d.id) (has_doc_id id) docs
        (λ y same. rw ((eq_iff y.id d.id).0 same) e))
]

abbrev pub or_else : Option ProviderDoc → Option ProviderDoc → Option ProviderDoc
or_else none other = other
or_else (some d) other = some d

or_else_newest :
    (l : Option ProviderDoc) (b : Bool) (d : ProviderDoc) (old : Option ProviderDoc)
    → or_else l (if b then some d else old)
      ≡ or_else (elim l [ none ↦ if b then some d else none | some y ↦ some y ]) old
or_else_newest none true d old = refl
or_else_newest none false d old = refl
or_else_newest (some y) b d old = refl

find-add_documents :
    (id : ℕ) (ds docs : List ProviderDoc)
    → find (has_doc_id id) (add_documents ds docs)
      ≡ or_else (last_of (has_doc_id id) ds) (find (has_doc_id id) docs)
unfolding add_documents last_of
find-add_documents id [] docs = refl
find-add_documents id (d ∷ ds) docs =
    find-add_documents id ds (put_doc d docs)
    ∙ ap (or_else (last_of (has_doc_id id) ds)) (find-put_doc id d docs)
    ∙ or_else_newest (last_of (has_doc_id id) ds) (d.id == id) d (find (has_doc_id id) docs)

-- Whatever the size of the batches, a full reindex answers the number of the published providers, and
-- leaves under each id the document of the published provider with that id, or where there is none the
-- document that was there before.
pub reindex_all_lem :
    (batch_size : ℕ) (db : CatalogDb) (index : SearchIndex) (id : ℕ)
    → ((reindex_all batch_size db index).0 ≡ length (docs_of db))
      × (find (has_doc_id id) (reindex_all batch_size db index).1.docs
          ≡ or_else (last_of (has_doc_id id) (docs_of db)) (find (has_doc_id id) index.docs))
unfolding reindex_all ensure_index
reindex_all_lem batch_size db index id =
    let done = index_rest_lem batch_size (docs_of db) [] index.docs 0 in
    (
      ap (λ r. r.0) done ∙ omega arith,
      ap (λ r. find (has_doc_id id) r.1) done ∙ find-add_documents id (docs_of db) index.docs,
    )
