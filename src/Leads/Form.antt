-- ===== src/Leads/Form.antt =====
-- The anti-spam checks of the public form: issue_form_token, check_form_token and check_content in
-- apps/api/src/ozzb2b_api/services/leads.py. The clock reads in microseconds.
pub mod RoundTrip
use ozzb2b.Shared.{
  has_prefix, ℕ, zero, suc, ◌+◌, ◌-◌, ◌*◌, ◌/◌, ◌%◌, Bool, true, false, not, ◌&&◌, ◌||◌, [], ◌∷◌,
  ◌++◌, ltb, leb, ◌==◌, nat_eq, text_eq, if◌then◌else◌, Text, codes, lower, partition, is_digit,
  is_truthy, any, all, Result, ok, err,
}
use ozzb2b.Errors.{Error, error, lead_rejected}
use ozzb2b.Leads.Data.{LeadSettings, sign}

-- `str(n)` for a number with at most as many digits as the fuel
unfoldable pub digits_onto : ℕ → ℕ → Text → Text
digits_onto zero n acc = acc
digits_onto (suc f) n acc =
    let rest = digits_onto f (n / 10) ((b'0' + n % 10) ∷ acc) in
    if ltb n 10 then (b'0' + n) ∷ acc else rest

-- `str(n)`: a number has fewer digits than its value, and one at least
unfoldable pub decimal : ℕ → Text
decimal n = digits_onto (suc n) n []

-- `int(s)` on digits
pub int_onto : ℕ → Text → ℕ
int_onto acc [] = acc
int_onto acc (c ∷ s) = int_onto (acc * 10 + (c - b'0')) s

pub int_of : Text → ℕ
int_of = int_onto 0

-- `s.isdigit()`, for ASCII digits: any other digit fails the signature, with the same error
pub is_digits : Text → Bool
is_digits s = is_truthy s && all is_digit s

module _ (cfg : LeadSettings) where
  unfoldable pub token_payload : ℕ → Text → Text
  token_payload issued nonce = decimal issued ++ b'.' ∷ nonce

  -- issue_form_token: the clock and the random nonce are arguments
  pub issue_form_token : ℕ → Text → Text
  issue_form_token now_us nonce =
      token_payload (now_us / 1000000) nonce
      ++ b'.' ∷ sign cfg (codes "lead-form") (token_payload (now_us / 1000000) nonce)

  pub invalid_token : Error
  invalid_token = error lead_rejected "invalid form token"

  -- the age checks: `age > ttl` and `age < min`, for the age in microseconds
  pub check_age : ℕ → ℕ → Result Error Unit
  check_age issued now_us =
      if ltb ((issued + cfg.lead_form_token_ttl_seconds) * 1000000) now_us
      then err (error lead_rejected "form token expired")
      else if ltb now_us ((issued + cfg.lead_min_fill_seconds) * 1000000)
      then err (error lead_rejected "form submitted too fast")
      else ok tt

  pub check_parts : Text → Text → Text → ℕ → Result Error Unit
  check_parts issued_raw nonce sig now_us =
      if not (is_digits issued_raw && (is_truthy nonce && is_truthy sig))
      then err invalid_token
      else if not (sig == sign cfg (codes "lead-form") (issued_raw ++ b'.' ∷ nonce))
      then err invalid_token
      else check_age (int_of issued_raw) now_us

  pub check_form_token : Text → ℕ → Result Error Unit
  check_form_token token now_us =
      let (issued_raw, rest) = partition b'.' token in
      let (nonce, sig) = partition b'.' rest in check_parts issued_raw nonce sig now_us

-- the length of the match of `https?://|www\.` at the start of a lower-case text, or 0
pub link_length : Text → ℕ
link_length s =
    if has_prefix (codes "https://") s
    then 8
    else if has_prefix (codes "http://") s
    then 7
    else if has_prefix (codes "www.") s
    then 4
    else 0

-- `len(re.findall(…))`: the matches do not overlap, so the scan skips the rest of each
pub count_links_from : ℕ → Text → ℕ
count_links_from skip [] = 0
count_links_from (suc skip) (c ∷ s) = count_links_from skip s
count_links_from zero (c ∷ s) =
    let n = link_length (c ∷ s) in (if ltb 0 n then 1 else 0) + count_links_from (n - 1) s

pub count_links : Text → ℕ
count_links description = count_links_from 0 (lower description)

abbrev pub max_links : ℕ
max_links = 2

-- `[а-яё]`, on a lower-case text
pub is_cyrillic : ℕ → Bool
is_cyrillic c = (leb 0x430 c && leb c 0x44f) || c == 0x451

pub check_content : Text → Result Error Unit
check_content description =
    if ltb max_links (count_links description)
    then err (error lead_rejected "too many links")
    else if not (any is_cyrillic (lower description))
    then err (error lead_rejected "description must be in Russian")
    else ok tt
