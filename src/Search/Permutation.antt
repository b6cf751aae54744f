-- ===== src/Search/Permutation.antt =====
-- A re-ranking neither loses nor adds a hit.
use ozzb2b.Shared.{
  ℕ, ◌+◌, ◌≡◌, refl, sym, ap, subst, ◌∙◌, inl, inr, Bool, true, false, not, List, [], ◌∷◌, ◌++◌,
  ◌==◌, nat_eq, eq_iff, any, select, map, count, count-append, any-count, IsUnique, Bool-cases,
  arith, Result, ok, err, if◌then◌else◌, codes,
}
use ozzb2b.Errors.{Error, is_matcher_unavailable}
use ozzb2b.Search.{SearchHit, SearchResult}
use ozzb2b.Search.Rerank.{
  FoundProvider, MatcherCandidate, MatcherScore, reordered, with_scores, rerank_candidates,
  maybe_rerank, candidates_of, matcher_score,
}

module _ {A : Type 0} (key : A → ℕ) (id : ℕ) where
  -- of rows with distinct keys, one at most has the key
  count-IsUnique :
      (xs : List A)
      → IsUnique key xs
      → count (λ x. key x == id) xs ≡ (if any (λ x. key x == id) xs then 1 else 0)
  unfolding count any
  count-IsUnique [] u = refl
  count-IsUnique (x ∷ xs) u = elim (Bool-cases (key x == id)) [
    | inl e ↦
        let same : key x ≡ id = (eq_iff (key x) id).0 e in
        let none_else : any (λ y. key y == id) xs ≡ false =
          ap (λ k. any (λ y. key y == k) xs) (sym same) ∙ u.0 in
        let zeros = any-count (λ y. key y == id) xs none_else in rw (e, zeros) refl
    | inr e ↦ let rest = count-IsUnique xs u.1 in ground (arith, e, rest)
  ]

  -- a test that depends on the key alone keeps or drops the rows of a key
  count-select :
      (test : ℕ → Bool) (xs : List A)
      → count (λ x. key x == id) (select (λ x. test (key x)) xs)
        ≡ (if test id then count (λ x. key x == id) xs else 0)
  unfolding count select
  count-select test [] = ground arith
  count-select test (x ∷ xs) =
      let rest = count-select test xs in
      elim (Bool-cases (key x == id)) [
        | inl e ↦
            let same : test (key x) ≡ test id = ap test ((eq_iff (key x) id).0 e) in
            elim (Bool-cases (test id)) [
              | inl f ↦ rw (same ∙ f, f, e) (ap (λ n. 1 + n) (rest ∙ (rw f refl)))
              | inr f ↦ rw (same ∙ f, f) (rest ∙ (rw f refl))
            ]
        | inr e ↦ elim (Bool-cases (test (key x))) [
          | inl f ↦ rw (f, e) (ground (arith, rest))
          | inr f ↦ rw (f, e) (ground (arith, rest))
        ]
      ]

module _ {F : Type 0} (nought : F) (scores : List (MatcherScore F)) where
  count-map :
      (id : ℕ) (xs : List (MatcherScore F))
      → count
          (λ (h : SearchHit F). h.provider_id == id)
          (map
            (λ s. record {
              provider_id = s.provider_id;
              score = matcher_score nought scores s.provider_id;
            })
            xs)
        ≡ count (λ s. s.provider_id == id) xs
  unfolding count
  count-map id [] = refl
  count-map id (x ∷ xs) = ap (λ n. (if x.provider_id == id then 1 else 0) + n) (count-map id xs)

  reordered_counts :
      (hits : List (SearchHit F)) (id : ℕ)
      → IsUnique (λ (h : SearchHit F). h.provider_id) hits
      → IsUnique (λ (s : MatcherScore F). s.provider_id) scores
      → count (λ (h : SearchHit F). h.provider_id == id) (reordered nought scores hits)
        ≡ count (λ (h : SearchHit F). h.provider_id == id) hits
  unfolding reordered
  reordered_counts hits id u v =
      let kept =
        count-append (λ (h : SearchHit F). h.provider_id == id)
          (map
            (λ s. record {
              provider_id = s.provider_id;
              score = matcher_score nought scores s.provider_id;
            })
            (select (λ s. any (λ (h : SearchHit F). h.provider_id == s.provider_id) hits) scores))
          (select (λ h. not (any (λ (s : MatcherScore F). s.provider_id == h.provider_id) scores))
            hits) in
      let ranked =
        count-map id
          (select (λ s. any (λ (h : SearchHit F). h.provider_id == s.provider_id) hits) scores)
        ∙ count-select (λ (s : MatcherScore F). s.provider_id) id
            (λ k. any (λ (h : SearchHit F). h.provider_id == k) hits) scores in
      let dropped =
        count-select (λ (h : SearchHit F). h.provider_id) id
          (λ k. not (any (λ (s : MatcherScore F). s.provider_id == k) scores)) hits in
      let one_hit = count-IsUnique (λ (h : SearchHit F). h.provider_id) id hits u in
      let one_score = count-IsUnique (λ (s : MatcherScore F). s.provider_id) id scores v in
      rw (kept, ranked, dropped, one_hit, one_score) (ground arith)

-- the result has the same total, and each id as often
pub record IsReordered {F : Type 0} (before after : SearchResult F) : Type 0 where
  pub total : after.total ≡ before.total
  pub hits :
      (id : ℕ)
      → count (λ (h : SearchHit F). h.provider_id == id) after.hits
        ≡ count (λ (h : SearchHit F). h.provider_id == id) before.hits

module _ {F : Type 0} (nought : F) (result : SearchResult F)
    (distinct : IsUnique (λ (h : SearchHit F). h.provider_id) result.hits) where
  unchanged :
      {out : SearchResult F}
      → ◌≡◌ {A = Result Error (SearchResult F)} (ok result) (ok out)
      → IsReordered result out
  unchanged {out} h =
      let same : result ≡ out = cc in
      subst (IsReordered result) same (record { total = refl; hits = λ id. refl })

  with_scores-IsReordered :
      (answer : Result Error (List (MatcherScore F))) {out : SearchResult F}
      → ((scores : List (MatcherScore F))
          → answer ≡ ok scores
          → IsUnique (λ (s : MatcherScore F). s.provider_id) scores)
      → with_scores nought result answer ≡ ok out
      → IsReordered result out
  unfolding with_scores
  with_scores-IsReordered (ok scores) {out} once h =
      let same : record {
        total = result.total;
        hits = reordered nought scores result.hits;
        engine = result.engine ++ codes "+matcher";
      }
          ≡ out =
        cc in
      subst (IsReordered result) same (record {
        total = refl;
        hits = λ id. reordered_counts nought scores result.hits id distinct (once scores refl);
      })
  with_scores-IsReordered (err e) once h = elim (Bool-cases (is_matcher_unavailable e)) [
    | inl u ↦ unchanged (sym (rw u refl) ∙ h)
    | inr u ↦ absurd (ground (arith, h, u))
  ]

  -- A re-ranking that returns has neither lost nor added a hit, whether the matcher is off, cannot be
  -- reached or answers: the result has the total and each provider's id as often as before. The hits
  -- and each answer of the matcher have distinct ids.
  pub maybe_rerank-IsReordered :
      (enabled : Bool) (rank : List (MatcherCandidate F) → Result Error (List (MatcherScore F)))
      (providers : List FoundProvider) {out : SearchResult F}
      → ((cs : List (MatcherCandidate F)) (scores : List (MatcherScore F))
          → rank cs ≡ ok scores
          → IsUnique (λ (s : MatcherScore F). s.provider_id) scores)
      → maybe_rerank nought enabled rank result providers ≡ ok out
      → IsReordered result out
  unfolding maybe_rerank rerank_candidates
  maybe_rerank-IsReordered false rank providers once h = unchanged h
  maybe_rerank-IsReordered true rank providers once h =
      candidates (candidates_of nought result.hits providers result.hits) h
    where
      candidates :
          {out : SearchResult F} (cs : List (MatcherCandidate F))
          → rerank_candidates nought rank result cs ≡ ok out
          → IsReordered result out
      candidates [] k = unchanged k
      candidates (c ∷ cs) k = with_scores-IsReordered (rank (c ∷ cs)) (once (c ∷ cs)) k
