-- ===== src/Claims/Index.antt =====
-- How many claims of a provider are verified after the UPDATEs of _mark_claim_verified, and what the index
-- on them sees.
use ozzb2b.Shared.{
  ℕ, ◌≤◌, ◌≡◌, refl, ap, subst, ◌∙◌, Bool, true, false, not, ◌+◌, ◌&&◌, List, [], ◌∷◌, ◌==◌, nat_eq,
  option_nat_eq, nat_beq_iff, update, count, any, IsUnique, any-update, arith, Bool-cases, inl, inr,
}
use ozzb2b.Claims.{
  ProviderClaim, ClaimMethod, pending_for, verified_for, other_verified, verify_row, reject_row,
}

-- an UPDATE that makes no row pass adds nothing to the count
pub count-update_le :
    {A : Type 0} (q p : A → Bool) (f : A → A) (xs : List A)
    → ((x : A) → q (f x) ≡ true → q x ≡ true)
    → count q (update p f xs) ≤ count q xs
unfolding count update
count-update_le q p f [] h = omega arith
count-update_le q p f (x ∷ xs) h = ground (arith, count-update_le q p f xs h, h x)

-- the rows that are verified after an UPDATE of the row `k`
pub count-verify_le :
    (p k : ℕ) (how : ClaimMethod) (now : ℕ) (cs : List ProviderClaim)
    → count (verified_for p) (update (λ e. e.id == k) (verify_row how now) cs)
      ≤ count (λ e. verified_for p e && not (e.id == k)) cs
        + count (λ e. e.id == k && e.provider_id == p) cs
unfolding count update
count-verify_le p k how now [] = omega arith
count-verify_le p k how now (c ∷ cs) = ground (arith, count-verify_le p k how now cs)

-- without the row `k` among the provider's the UPDATE adds none
pub count-verify_none :
    (p k : ℕ) (how : ClaimMethod) (now : ℕ) (cs : List ProviderClaim)
    → any (λ e. e.id == k && e.provider_id == p) cs ≡ false
    → count (verified_for p) (update (λ e. e.id == k) (verify_row how now) cs)
      ≤ count (verified_for p) cs
unfolding count update any
count-verify_none p k how now [] h = omega arith
count-verify_none p k how now (c ∷ cs) h = ground (arith, count-verify_none p k how now cs)

unlisted :
    (p k : ℕ) (cs : List ProviderClaim)
    → any (λ e. e.id == k) cs ≡ false
    → count (λ e. e.id == k && e.provider_id == p) cs ≡ 0
unfolding count any
unlisted p k [] h = refl
unlisted p k (c ∷ cs) h = ground (arith, unlisted p k cs)

-- a key counts one row at most
pub count-key_le :
    (p k : ℕ) (cs : List ProviderClaim)
    → IsUnique (λ (c : ProviderClaim). c.id) cs
    → count (λ e. e.id == k && e.provider_id == p) cs ≤ 1
unfolding count any
count-key_le p k [] u = omega arith
count-key_le p k (c ∷ cs) (fresh, u) = elim (Bool-cases (c.id == k)) [
  | inl hit ↦
      let same : c.id ≡ k = ground (arith, nat_beq_iff c.id k) in
      ground (arith, unlisted p k cs (subst (λ i. any (λ e. e.id == i) cs ≡ false) same fresh))
  | inr miss ↦ ground (arith, count-key_le p k cs u)
]

-- a provider that has the row `k` has no other verified claim, where the index lets the UPDATE pass
pub other_verified_lem :
    (p k : ℕ) (cs all_claims : List ProviderClaim)
    → any
        (λ (e : ProviderClaim).
          e.id == k && any (λ f. verified_for e.provider_id f && not (f.id == k)) all_claims)
        cs
      ≡ false
    → any (λ e. e.id == k && e.provider_id == p) cs ≡ true
    → any (λ f. verified_for p f && not (f.id == k)) all_claims ≡ false
unfolding any
other_verified_lem p k [] all_claims free h = absurd (ground arith)
other_verified_lem p k (c ∷ cs) all_claims free h =
    ground (arith, nat_beq_iff c.provider_id p, other_verified_lem p k cs all_claims)

any-eq : {A : Type 0} (p q : A → Bool) (xs : List A) → ((x : A) → p x ≡ q x) → any p xs ≡ any q xs
unfolding any
any-eq p q [] h = refl
any-eq p q (x ∷ xs) h = rw (h x, any-eq p q xs h) refl

-- the rejections leave the index as it is
pub other_verified-reject :
    (i k now : ℕ) (cs : List ProviderClaim)
    → other_verified k cs ≡ false
    → other_verified k (update (λ e. pending_for i e && not (e.id == k)) (reject_row now) cs)
      ≡ false
unfolding other_verified
other_verified-reject i k now cs h =
    any-update is_rival _ (reject_row now) cs (λ _ _. refl)
    ∙ any-eq _ _ cs (λ e.
      ap (λ b. e.id == k && b) (any-update is_rival _ (reject_row now) cs (λ c r. ground arith)))
    ∙ h
  where
    is_rival : ProviderClaim → Bool
    is_rival e = pending_for i e && not (e.id == k)
