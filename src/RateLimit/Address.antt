-- ===== src/RateLimit/Address.antt =====
-- Which entry of the X-Forwarded-For header the limiter counts by.
use ozzb2b.Shared.{
  ℕ, zero, suc, ◌-◌, ◌<◌, ◌≡◌, refl, ap, ◌∙◌, Bool, true, Option, List, [], ◌∷◌, ◌++◌, map, ◌==◌,
  nat_eq, text_eq, Text, strip, split, split_from, is_truthy, length, length-append, get_or, select,
  arith, Bool-cases, inl, inr,
}
use ozzb2b.RateLimit.{chain_of, forwarded_for, address_in, client_ip}

split_from-append :
    (part a b : Text)
    → split_from part b',' (a ++ b',' ∷ b) ≡ split_from part b',' a ++ split_from [] b',' b
unfolding split_from
split_from-append part [] b = refl
split_from-append part (c ∷ a) b = elim (Bool-cases (c == b',')) [
  | inl e ↦ rw e (ap (λ (r : List Text). part ∷ r) (split_from-append [] a b))
  | inr e ↦ rw e (split_from-append (part ++ c ∷ []) a b)
]

select-append :
    {A : Type 0} (p : A → Bool) (xs ys : List A) → select p (xs ++ ys) ≡ select p xs ++ select p ys
unfolding select
select-append p [] ys = refl
select-append p (x ∷ xs) ys = ground (arith, select-append p xs ys)

map-append : {A B : Type 0} (f : A → B) (xs ys : List A) → map f (xs ++ ys) ≡ map f xs ++ map f ys
map-append f [] ys = refl
map-append f (x ∷ xs) ys = ap (λ (r : List _). f x ∷ r) (map-append f xs ys)

-- what a proxy appends comes at the end of the chain
chain_of-append : (a b : Text) → chain_of (a ++ b',' ∷ b) ≡ chain_of a ++ chain_of b
unfolding chain_of split
chain_of-append a b =
    ap (λ (r : List Text). map strip (select (λ p. is_truthy (strip p)) r))
      (split_from-append [] a b)
    ∙ (ap (λ (r : List Text). map strip r)
          (select-append (λ p. is_truthy (strip p)) (split_from [] b',' a) (split_from [] b',' b))
        ∙ map-append strip _ _)

get_or-append :
    (xs ys : List Text) (i : ℕ) → i < length xs → get_or (xs ++ ys) i [] ≡ get_or xs i []
get_or-append [] ys i h = absurd (omega arith)
get_or-append (x ∷ xs) ys zero h = refl
get_or-append (x ∷ xs) ys (suc i) h = get_or-append xs ys i (omega arith)

-- the entries of a chain are not empty
get_or-stripped :
    (ps : List Text) (i : ℕ)
    → i < length (map strip (select (λ p. is_truthy (strip p)) ps))
    → is_truthy (get_or (map strip (select (λ p. is_truthy (strip p)) ps)) i []) ≡ true
unfolding select
get_or-stripped [] i h = absurd (omega arith)
get_or-stripped (p ∷ ps) zero h = elim (Bool-cases (is_truthy (strip p))) [
  | inl e ↦ rw e e
  | inr e ↦ rw e (get_or-stripped ps zero (rw e at h))
]
get_or-stripped (p ∷ ps) (suc i) h = elim (Bool-cases (is_truthy (strip p))) [
  | inl e ↦ rw e (get_or-stripped ps i (omega (arith, rw e at h)))
  | inr e ↦ rw e (get_or-stripped ps (suc i) (rw e at h))
]

chain_of-truthy :
    (s : Text) (i : ℕ) → i < length (chain_of s) → is_truthy (get_or (chain_of s) i []) ≡ true
unfolding chain_of
chain_of-truthy s i h = get_or-stripped (split b',' s) i h

address_in-append :
    (xs ys : List Text) (fallback : Option Text) (n : ℕ)
    → length ys ≡ n
    → 0 < length xs
    → is_truthy (get_or xs (length xs - 1) []) ≡ true
    → address_in (xs ++ ys) fallback n ≡ get_or xs (length xs - 1) []
unfolding address_in
address_in-append xs ys fallback n hops given e =
    let index : length (xs ++ ys) - n - 1 ≡ length xs - 1 =
      omega (arith, length-append xs ys, hops) in
    rw (index, get_or-append xs ys (length xs - 1) (omega (arith, given)), e) refl

-- The defect: the limiter counts by an entry that the client made up. Each of the trusted hops
-- appends one entry, as `$proxy_add_x_forwarded_for` does, so the real peer is the first of those;
-- but for a header that the client sent with at least one entry, the address is the last one of the
-- client's own.
pub client_ip-append :
    (headers : List (Text × Text)) (fallback : Option Text) (sent appended : Text) (n : ℕ)
    → 0 < n
    → forwarded_for headers ≡ sent ++ b',' ∷ appended
    → length (chain_of appended) ≡ n
    → 0 < length (chain_of sent)
    → client_ip headers fallback n ≡ get_or (chain_of sent) (length (chain_of sent) - 1) []
unfolding client_ip
client_ip-append headers fallback sent appended n positive e hops given =
    rw (e, chain_of-append sent appended)
      (ground (
        arith,
        address_in-append (chain_of sent) (chain_of appended) fallback n hops given
            (chain_of-truthy sent (length (chain_of sent) - 1) (omega (arith, given))),
      ))
