-- ===== src/Claims/Rows.antt =====
-- The rows of the claims and the providers after the UPDATEs of _mark_claim_verified.
use ozzb2b.Shared.{
  ℕ, ◌≡◌, ◌≢◌, refl, ap, ◌∙◌, Bool, true, false, not, ◌&&◌, ◌||◌, some, List, [], ◌∷◌, ◌==◌, nat_eq,
  text_eq, option_nat_eq, nat_beq_iff, eq_refl, update, any, all, find, select, find-update,
  find-update_other, find-update_kept, find-any, arith, Bool-cases, inl, inr, find_sound,
}
use ozzb2b.Domain.{Provider}
use ozzb2b.Claims.{ProviderClaim, ClaimMethod, pending_for, verify_row, reject_row}

-- the row belongs to another provider, or the user owns it
pub is_owned_if : ℕ → ℕ → Provider → Bool
is_owned_if provider_id user_id p =
    not (p.id == provider_id) || (p.is_claimed && p.claimed_by_user_id == some user_id)

pub all_owned :
    (i u : ℕ) (ps : List Provider)
    → all (is_owned_if i u) (
        update
          (λ (p : Provider). p.id == i)
          (λ p. record p { is_claimed = true; claimed_by_user_id = some u })
          ps)
      ≡ true
unfolding all update is_owned_if
all_owned i u [] = refl
all_owned i u (p ∷ ps) = elim (Bool-cases (p.id == i)) [
  | inl e ↦ rw e (ground (arith, e, all_owned i u ps, eq_refl (some u)))
  | inr e ↦ rw e (ground (arith, all_owned i u ps, e))
]

-- an UPDATE of the row `i` leaves the others
pub select-update_other :
    (i : ℕ) (f : Provider → Provider) (ps : List Provider)
    → ((p : Provider) → (f p).id ≡ p.id)
    → select (λ p. not (p.id == i)) (update (λ p. p.id == i) f ps)
      ≡ select (λ p. not (p.id == i)) ps
unfolding select update
select-update_other i f [] h = refl
select-update_other i f (p ∷ ps) h = elim (Bool-cases (p.id == i)) [
  | inl e ↦ rw (e, h p, e) (select-update_other i f ps h)
  | inr e ↦ rw e (rw e (ap (λ l. p ∷ l) (select-update_other i f ps h)))
]

-- after the two UPDATEs of the claims no other claim for the provider is pending
pub none_pending :
    (i k : ℕ) (how : ClaimMethod) (now : ℕ) (cs : List ProviderClaim)
    → any (pending_for i) (
        update
          (λ e. e.id == k)
          (verify_row how now)
          (update (λ e. pending_for i e && not (e.id == k)) (reject_row now) cs))
      ≡ false
unfolding any update
none_pending i k how now [] = refl
none_pending i k how now (c ∷ cs) = ground (arith, none_pending i k how now cs)

-- the rows of the claims after the two UPDATEs
module _ (i k : ℕ) (how : ClaimMethod) (now : ℕ) (cs : List ProviderClaim) where
  unfoldable pub is_rival : ProviderClaim → Bool
  is_rival e = pending_for i e && not (e.id == k)

  unfoldable pub marked : List ProviderClaim
  marked = update (λ e. e.id == k) (verify_row how now) (update is_rival (reject_row now) cs)

  -- the claim itself
  pub verified_found :
      (c : ProviderClaim)
      → find (λ e. e.id == k) cs ≡ some c
      → find (λ e. e.id == k) marked ≡ some (verify_row how now c)
  unfolding marked is_rival
  verified_found c e =
      find-update (λ e. e.id == k) (λ e. e.id == k) (verify_row how now) _ c (λ _ _. refl)
        (find-update_kept is_rival (λ e. e.id == k) (reject_row now) cs c (λ _ _. refl) e
          (ground (arith, find_sound (λ (e : ProviderClaim). e.id == k) cs {x = c} e)))
        (find_sound (λ (e : ProviderClaim). e.id == k) cs e)

  apart : (c y : ProviderClaim) → c.id ≢ k → (y.id == k) ≡ true → (y.id == c.id) ≡ false
  apart c y other h = ground (arith, nat_beq_iff y.id k, nat_beq_iff y.id c.id)

  -- another claim that is pending for the provider
  pub rejected_found :
      (c : ProviderClaim)
      → c.id ≢ k
      → pending_for i c ≡ true
      → find (λ e. e.id == c.id) cs ≡ some c
      → find (λ e. e.id == c.id) marked ≡ some (reject_row now c)
  unfolding marked is_rival
  rejected_found c other p e =
      find-update_other (λ e. e.id == k) (λ e. e.id == c.id) (verify_row how now) _
        (λ y. apart c y other) (λ y. apart c y other)
      ∙ find-update is_rival (λ e. e.id == c.id) (reject_row now) cs c (λ _ _. refl) e
          (rw p (ground (arith, nat_beq_iff c.id k)))

-- a row that passes a test
pub any-of_find :
    (p q : ProviderClaim → Bool) (cs : List ProviderClaim) (c : ProviderClaim)
    → find q cs ≡ some c
    → p c ≡ true
    → any p cs ≡ true
any-of_find p q cs c e h = elim (Bool-cases (any p cs)) [
  | inl hit ↦ hit
  | inr miss ↦ absurd (ground (arith, find-any p q cs c e miss, h))
]
