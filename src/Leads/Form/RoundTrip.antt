-- ===== src/Leads/Form/RoundTrip.antt =====
-- A form token that the server issued is accepted in its window, and no other token ever is.
use ozzb2b.Shared.{
  ℕ, zero, suc, ◌+◌, ◌*◌, ◌/◌, ◌%◌, ◌≤◌, ◌<◌, ◌≡◌, refl, ap, sym, ◌∙◌, true, false, [], ◌∷◌, ◌++◌,
  ◌==◌, nat_eq, text_eq, eq_iff, eq_refl, Text, codes, partition, partition-append, partition-eq,
  is_digit, is_truthy, any, all, any-of_all, ok, arith,
}
use mathlib.Core.List.{append_assoc}
use ozzb2b.Leads.Data.{LeadSettings, sign}
use ozzb2b.Leads.Form.{
  digits_onto, decimal, int_onto, int_of, is_digits, token_payload, issue_form_token, check_age,
  check_parts, check_form_token,
}

digits_onto-digits :
    (f n : ℕ) (acc : Text) → all is_digit acc ≡ true → all is_digit (digits_onto f n acc) ≡ true
unfolding digits_onto all
digits_onto-digits zero n acc h = h
digits_onto-digits (suc f) n acc h =
    ground (arith, digits_onto-digits f (n / 10) ((b'0' + n % 10) ∷ acc))

digits_onto-truthy : (f n : ℕ) (acc : Text) → n < f → is_truthy (digits_onto f n acc) ≡ true
unfolding digits_onto
digits_onto-truthy zero n acc h = absurd (omega arith)
digits_onto-truthy (suc f) n acc h =
    ground (arith, digits_onto-truthy f (n / 10) ((b'0' + n % 10) ∷ acc))

int_onto-digits_onto :
    (f n : ℕ) (acc : Text) → n < f → int_onto 0 (digits_onto f n acc) ≡ int_onto n acc
unfolding digits_onto int_onto
int_onto-digits_onto zero n acc h = absurd (omega arith)
int_onto-digits_onto (suc f) n acc h =
    ground (arith, int_onto-digits_onto f (n / 10) ((b'0' + n % 10) ∷ acc))

-- Printing a number and reading it back gives the number.
pub int_of-decimal : (n : ℕ) → int_of (decimal n) ≡ n
unfolding int_of decimal int_onto
int_of-decimal n = int_onto-digits_onto (suc n) n [] (omega arith)

is_digits-decimal : (n : ℕ) → is_digits (decimal n) ≡ true
unfolding is_digits decimal all
is_digits-decimal n =
    rw (digits_onto-truthy (suc n) n [] (omega arith)) (digits_onto-digits (suc n) n [] refl)

no_dot-decimal : (n : ℕ) → any (λ c. c == b'.') (decimal n) ≡ false
unfolding decimal all
no_dot-decimal n =
    any-of_all is_digit (λ c. c == b'.') (decimal n) (λ c h. ground arith)
      (digits_onto-digits (suc n) n [] refl)

module _ (cfg : LeadSettings) where
  -- A token that the server issued, with any nonce that is not empty and holds no dot, passes every
  -- check but those on its age, and these read the second of issue: it is accepted from
  -- `lead_min_fill_seconds` after that second up to `lead_form_token_ttl_seconds` after it.
  pub check_form_token-issue_form_token :
      (issued_us now_us : ℕ) (nonce : Text)
      → is_truthy nonce ≡ true
      → any (λ c. c == b'.') nonce ≡ false
      → is_truthy (sign cfg (codes "lead-form") (token_payload cfg (issued_us / 1000000) nonce))
        ≡ true
      → (issued_us / 1000000 + cfg.lead_min_fill_seconds) * 1000000 ≤ now_us
      → now_us ≤ (issued_us / 1000000 + cfg.lead_form_token_ttl_seconds) * 1000000
      → check_form_token cfg (issue_form_token cfg issued_us nonce) now_us ≡ ok tt
  unfolding check_form_token issue_form_token token_payload check_parts check_age
  check_form_token-issue_form_token issued_us now_us nonce given no_dot signed late early =
      let n = issued_us / 1000000 in
      let sig = sign cfg (codes "lead-form") (decimal n ++ b'.' ∷ nonce) in
      rw (append_assoc (decimal n) (b'.' ∷ nonce) (b'.' ∷ sig)) (
        rw (partition-append b'.' (decimal n) (nonce ++ b'.' ∷ sig) (no_dot-decimal n)) (
          rw (partition-append b'.' nonce sig no_dot) (
            rw (is_digits-decimal n, given, signed, eq_refl sig, int_of-decimal n) (ground arith))))

  check_parts-eq-ok :
      (a nonce sig : Text) (now_us : ℕ)
      → check_parts cfg a nonce sig now_us ≡ ok tt
      → (is_digits a ≡ true)
        × (is_truthy sig ≡ true)
        × (sig ≡ sign cfg (codes "lead-form") (a ++ b'.' ∷ nonce))
        × ((int_of a + cfg.lead_min_fill_seconds) * 1000000 ≤ now_us)
        × (now_us ≤ (int_of a + cfg.lead_form_token_ttl_seconds) * 1000000)
  unfolding check_parts check_age
  check_parts-eq-ok a nonce sig now_us h =
      ground (arith, eq_iff sig (sign cfg (codes "lead-form") (a ++ b'.' ∷ nonce)))

  rest_truthy : (s : Text) → is_truthy (partition b'.' s).1 ≡ true → is_truthy s ≡ true
  unfolding partition
  rest_truthy [] h = h
  rest_truthy (c ∷ s) h = refl

  -- What a token must be to be accepted: three parts, of which the first is a number of seconds and
  -- the last the server's own signature of the other two, and an age between the two limits.
  pub check_form_token-eq-ok :
      (token : Text) (now_us : ℕ)
      → check_form_token cfg token now_us ≡ ok tt
      → (issued_raw : Text) × (nonce : Text) × (token
          ≡ issued_raw
            ++ b'.' ∷ nonce
            ++ b'.' ∷ sign cfg (codes "lead-form") (issued_raw ++ b'.' ∷ nonce))
        × (is_digits issued_raw ≡ true)
        × ((int_of issued_raw + cfg.lead_min_fill_seconds) * 1000000 ≤ now_us)
        × (now_us ≤ (int_of issued_raw + cfg.lead_form_token_ttl_seconds) * 1000000)
  unfolding check_form_token
  check_form_token-eq-ok token now_us h =
      let a = (partition b'.' token).0 in
      let rest = (partition b'.' token).1 in
      let nonce = (partition b'.' rest).0 in
      let sig = (partition b'.' rest).1 in
      let (digits, signed, same, late, early) = check_parts-eq-ok a nonce sig now_us h in
      let outer : token ≡ a ++ b'.' ∷ rest = partition-eq b'.' token (rest_truthy rest signed) in
      let inner : rest ≡ nonce ++ b'.' ∷ sig = partition-eq b'.' rest signed in
      (
        a,
        nonce,
        outer
            ∙ (ap (λ (r : Text). a ++ b'.' ∷ r) inner
                ∙ (sym (append_assoc a (b'.' ∷ nonce) (b'.' ∷ sig))
                    ∙ ap (λ (t : Text). a ++ b'.' ∷ nonce ++ b'.' ∷ t) same)),
        digits,
        late,
        early,
      )
