-- ===== src/Shared/Strings.antt =====
-- Python's `str` as the list of its code points, with the methods that the code calls.
use Prim.Native.Nat.{ℕ, zero, suc, ◌+◌}
use Prim.Native.Char.{code}
use Prim.Native.String.{String}
use mathlib.Core.Path.{◌≡◌, refl}
use mathlib.Core.Bool.{Bool, true, false, ◌&&◌, ◌||◌}
use mathlib.Core.Option.{Option, none, some}
use mathlib.Core.List.{List, [], ◌∷◌, ◌++◌, map}
use native.Mathlib.Omega.{arith}
use ozzb2b.Shared.Lists.{any}
use ozzb2b.Shared.Compare.{eq_refl, eq_iff, leb, if◌then◌else◌, ◌==◌, nat_eq}

abbrev pub Text : Type 0
Text = List ℕ

abbrev pub codes : String → Text
codes String.[] = []
codes (String.◌∷◌ c s) = code c ∷ codes s

-- `str.isspace` of one character
unfoldable pub is_space : ℕ → Bool
is_space c =
    (leb 9 c && leb c 13)
    || ((leb 28 c && leb c 32)
        || (c == 0x85
            || (c == 0xa0
                || (c == 0x1680
                    || ((leb 0x2000 c && leb c 0x200a)
                        || ((leb 0x2028 c && leb c 0x2029)
                            || (c == 0x202f || (c == 0x205f || c == 0x3000))))))))

-- `str.lower` of one Latin (ASCII) or Cyrillic letter; any other character is left as it is
unfoldable pub lower_char : ℕ → ℕ
lower_char c =
    if (leb b'A' c && leb c b'Z') || (leb 0x410 c && leb c 0x42f)
    then c + 32
    else if leb 0x400 c && leb c 0x40f
    then c + 80
    else c

unfoldable pub lower : Text → Text
lower = map lower_char

abbrev is_empty : Text → Bool
is_empty [] = true
is_empty (c ∷ s) = false

unfoldable pub lstrip : Text → Text
lstrip [] = []
lstrip (c ∷ s) = if is_space c then lstrip s else c ∷ s

unfoldable pub rstrip : Text → Text
rstrip [] = []
rstrip (c ∷ s) = let rest = rstrip s in if is_space c && is_empty rest then [] else c ∷ rest

unfoldable pub strip : Text → Text
strip s = rstrip (lstrip s)

-- `email.strip().lower()`
abbrev pub normalize : Text → Text
normalize s = lower (strip s)

-- `s.partition(sep)` for a separator of one character: the parts before and after its first place
unfoldable pub partition : ℕ → Text → Text × Text
partition sep [] = ([], [])
partition sep (c ∷ s) =
    let rest = partition sep s in if c == sep then ([], s) else (c ∷ rest.0, rest.1)

-- `s.split(sep)` for a separator of one character, with the part that is being read
unfoldable pub split_from : Text → ℕ → Text → List Text
split_from part sep [] = part ∷ []
split_from part sep (c ∷ s) =
    let fresh = part ∷ split_from [] sep s in
    let longer = split_from (part ++ c ∷ []) sep s in if c == sep then fresh else longer

unfoldable pub split : ℕ → Text → List Text
unfolding split_from
split = split_from []

abbrev pub is_digit : ℕ → Bool
is_digit c = leb b'0' c && leb c b'9'

-- `if s:` for a text
abbrev pub is_truthy : Text → Bool
is_truthy [] = false
is_truthy (c ∷ s) = true

-- `x or ""`
abbrev pub or_empty : Option Text → Text
or_empty none = []
or_empty (some s) = s

-- `x or None` for a text
abbrev pub or_none : Text → Option Text
or_none [] = none
or_none (c ∷ s) = some (c ∷ s)

-- `f(x)[0:n]` and the like
abbrev pub prefix : ℕ → Text → Text
prefix zero s = []
prefix (suc n) [] = []
prefix (suc n) (c ∷ s) = c ∷ prefix n s

-- `s.startswith(t)`
unfoldable pub has_prefix : Text → Text → Bool
has_prefix [] s = true
has_prefix (c ∷ t) [] = false
has_prefix (c ∷ t) (d ∷ s) = c == d && has_prefix t s

-- `needle in s`
unfoldable pub has_infix : Text → Text → Bool
has_infix needle [] = has_prefix needle []
has_infix needle (c ∷ s) = has_prefix needle (c ∷ s) || has_infix needle s

pub lower_char_idem : (c : ℕ) → lower_char (lower_char c) ≡ lower_char c
unfolding lower_char
lower_char_idem c = ground arith

pub is_space-lower_char : (c : ℕ) → is_space (lower_char c) ≡ is_space c
unfolding lower_char is_space
is_space-lower_char c = ground arith

lower_idem : (s : Text) → lower (lower s) ≡ lower s
unfolding lower
lower_idem [] = refl
lower_idem (c ∷ s) = cc (lower_char_idem c, lower_idem s)

rstrip_idem : (s : Text) → rstrip (rstrip s) ≡ rstrip s
unfolding rstrip
rstrip_idem [] = refl
rstrip_idem (c ∷ s) = ground (arith, rstrip_idem s)

lstrip-rstrip-lstrip : (s : Text) → lstrip (rstrip (lstrip s)) ≡ rstrip (lstrip s)
unfolding lstrip rstrip
lstrip-rstrip-lstrip [] = refl
lstrip-rstrip-lstrip (c ∷ s) = ground (arith, lstrip-rstrip-lstrip s)

lstrip-lower : (s : Text) → lstrip (lower s) ≡ lower (lstrip s)
unfolding lstrip lower
lstrip-lower [] = refl
lstrip-lower (c ∷ s) = ground (arith, lstrip-lower s, is_space-lower_char c)

is_empty-lower : (s : Text) → is_empty (lower s) ≡ is_empty s
unfolding lower
is_empty-lower [] = refl
is_empty-lower (c ∷ s) = refl

rstrip-lower : (s : Text) → rstrip (lower s) ≡ lower (rstrip s)
unfolding rstrip lower
rstrip-lower [] = refl
rstrip-lower (c ∷ s) =
    ground (arith, rstrip-lower s, is_space-lower_char c, is_empty-lower (rstrip s))

strip_idem : (s : Text) → strip (strip s) ≡ strip s
unfolding strip
strip_idem s = rw (lstrip-rstrip-lstrip s, rstrip_idem (lstrip s)) refl

strip-lower : (s : Text) → strip (lower s) ≡ lower (strip s)
unfolding strip
strip-lower s = rw (lstrip-lower s, rstrip-lower (lstrip s)) refl

-- An address that is normalised stays as it is.
pub normalize_idem : (s : Text) → normalize (normalize s) ≡ normalize s
normalize_idem s = rw (strip-lower (strip s), strip_idem s, lower_idem (strip s)) refl

-- The separator splits a text at its first place.
pub partition-append :
    (sep : ℕ) (s t : Text) → any (λ c. c == sep) s ≡ false → partition sep (s ++ sep ∷ t) ≡ (s, t)
unfolding partition any
partition-append sep [] t h = rw (eq_refl sep)
partition-append sep (c ∷ s) t h = ground (arith, partition-append sep s t)

pub partition-eq :
    (sep : ℕ) (s : Text)
    → is_truthy (partition sep s).1 ≡ true
    → s ≡ (partition sep s).0 ++ sep ∷ (partition sep s).1
unfolding partition
partition-eq sep [] h = cc
partition-eq sep (c ∷ s) h = ground (arith, partition-eq sep s, eq_iff c sep)
