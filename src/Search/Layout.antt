-- ===== src/Search/Layout.antt =====
-- Switching the keyboard layout twice.
use ozzb2b.Shared.{
  ℕ, ◌≡◌, refl, ap, ◌∙◌, inl, inr, Bool, true, false, not, ◌&&◌, Option, some, List, [], ◌∷◌, ◌==◌,
  nat_eq, option_nat_eq, option_beq, eq_iff, Text, any, all, find, map, lower, is_some, is_none,
  find-Mem, find_sound, Option-cases, arith, if◌then◌else◌, lower_char,
}
use mathlib.Core.List.{Memᴰ}
use mathlib.Core.List.Memᴰ.{head, tail}
use ozzb2b.Search.{layout, to_ru, to_en, get_key, switch_keyboard_layout}

-- a letter of the Russian layout that no key of the Latin one has, in lower case
unfoldable pub is_ru_letter : ℕ → Bool
is_ru_letter c = is_some (to_en c) && (is_none (to_ru c) && lower_char c == c)

-- a Latin key is in lower case and has its Russian letter back
is_returned : ℕ × ℕ → Bool
is_returned k = to_ru k.0 == some k.1 && lower_char k.0 == k.0

all_returned : all is_returned layout ≡ true
unfolding is_returned layout to_ru lower_char find all option_beq
all_returned = refl

all-Mem :
    {A : Type 0} (p : A → Bool) (xs : List A) {x : A} → all p xs ≡ true → Memᴰ x xs → p x ≡ true
unfolding all
all-Mem p [] h m = elim m [ ]
all-Mem p (y ∷ xs) {x} h (head e) = rw e (ground (arith, h))
all-Mem p (y ∷ xs) h (tail m) = all-Mem p xs (ground (arith, h)) m

record Switched (c : ℕ) : Type 0 where
  key : ℕ
  there : to_en c ≡ some key
  back : to_ru key ≡ some c
  low : lower_char key ≡ key

switched : (c : ℕ) → is_ru_letter c ≡ true → Switched c
unfolding is_ru_letter to_en is_returned
switched c h = elim (Option-cases (find (λ k. k.1 == c) layout)) [
  | inl e ↦ absurd (ground (arith, h, e))
  | inr (k, e) ↦
      let good = all-Mem is_returned layout all_returned (find-Mem (λ k. k.1 == c) layout e) in
      let same : k.1 ≡ c = (eq_iff k.1 c).0 (find_sound (λ k. k.1 == c) layout e) in
      let letter : (to_ru k.0 == some k.1) ≡ true = ground (arith, good) in
      let case : (lower_char k.0 == k.0) ≡ true = ground (arith, good) in
      record {
        key = k.0;
        there = rw (e, to_en) refl;
        back = (eq_iff (to_ru k.0) (some k.1)).0 letter ∙ ap some same;
        low = (eq_iff (lower_char k.0) k.0).0 case;
      }
]

cons_eq : {c d : ℕ} {s t : Text} → c ≡ d → s ≡ t → ◌≡◌ {A = Text} (c ∷ s) (d ∷ t)
cons_eq e f = cc

in_lower_case : (c : ℕ) → is_ru_letter c ≡ true → lower_char c ≡ c
unfolding is_ru_letter
in_lower_case c h =
    let low : (lower_char c == c) ≡ true = ground (arith, h) in (eq_iff (lower_char c) c).0 low

lower-ru : (s : Text) → all is_ru_letter s ≡ true → lower s ≡ s
unfolding lower all
lower-ru [] h = refl
lower-ru (c ∷ s) h = cons_eq (in_lower_case c (ground (arith, h))) (lower-ru s (ground (arith, h)))

no_en-ru : (s : Text) → all is_ru_letter s ≡ true → any (λ c. is_some (to_ru c)) s ≡ false
unfolding any all is_ru_letter
no_en-ru [] h = refl
no_en-ru (c ∷ s) h = ground (arith, h, no_en-ru s)

get_key-some : (f : ℕ → Option ℕ) (c : ℕ) {d : ℕ} → f c ≡ some d → get_key f c ≡ d
unfolding get_key
get_key-some f c h = rw (h, get_key) refl

lower-keys :
    (s : Text) → all is_ru_letter s ≡ true → lower (map (get_key to_en) s) ≡ map (get_key to_en) s
unfolding lower all get_key
lower-keys [] h = refl
lower-keys (c ∷ s) h =
    let k = switched c (ground (arith, h)) in
    cons_eq (rw (get_key-some to_en c k.there) k.low) (lower-keys s (ground (arith, h)))

back-keys : (s : Text) → all is_ru_letter s ≡ true → map (get_key to_ru) (map (get_key to_en) s) ≡ s
unfolding all get_key
back-keys [] h = refl
back-keys (c ∷ s) h =
    let k = switched c (ground (arith, h)) in
    cons_eq (ap (get_key to_ru) (get_key-some to_en c k.there) ∙ get_key-some to_ru k.key k.back)
      (back-keys s (ground (arith, h)))

both_known : (a b : Bool) → a ≡ true → b ≡ false → (a && not b) ≡ true
both_known a b h k = rw (h, k) refl

not_both : (a b : Bool) → b ≡ true → (a && not b) ≡ false
not_both a b h = ground (arith, h)

switch_keyboard_layout-eq :
    (value : Text) (b : Bool)
    → (any (λ d. is_some (to_en d)) (lower value)
        && not (any (λ d. is_some (to_ru d)) (lower value)))
      ≡ b
    → switch_keyboard_layout value ≡ map (get_key (if b then to_en else to_ru)) (lower value)
unfolding switch_keyboard_layout
switch_keyboard_layout-eq value b h =
    ap (λ b. map (get_key (if b then to_en else to_ru)) (lower value)) h

module _ (c : ℕ) (s : Text) (h : all is_ru_letter (c ∷ s) ≡ true) where
  this : Switched c
  unfolding all
  this = switched c (ground (arith, h))

  has_ru : any (λ d. is_some (to_en d)) (c ∷ s) ≡ true
  unfolding any
  has_ru = rw this.there refl

  has_en : any (λ d. is_some (to_ru d)) (map (get_key to_en) (c ∷ s)) ≡ true
  unfolding any
  has_en = rw (get_key-some to_en c this.there, this.back) refl

  is_ru :
      (any (λ d. is_some (to_en d)) (lower (c ∷ s))
        && not (any (λ d. is_some (to_ru d)) (lower (c ∷ s))))
      ≡ true
  is_ru = rw (lower-ru (c ∷ s) h) (both_known _ _ has_ru (no_en-ru (c ∷ s) h))

  is_en :
      (any (λ d. is_some (to_en d)) (lower (map (get_key to_en) (c ∷ s)))
        && not (any (λ d. is_some (to_ru d)) (lower (map (get_key to_en) (c ∷ s)))))
      ≡ false
  is_en = rw (lower-keys (c ∷ s) h) (not_both _ _ has_en)

  to_latin : switch_keyboard_layout (c ∷ s) ≡ map (get_key to_en) (c ∷ s)
  to_latin =
      switch_keyboard_layout-eq (c ∷ s) true is_ru ∙ ap (map (get_key to_en)) (lower-ru (c ∷ s) h)

  to_cyrillic : switch_keyboard_layout (map (get_key to_en) (c ∷ s)) ≡ c ∷ s
  to_cyrillic =
      switch_keyboard_layout-eq (map (get_key to_en) (c ∷ s)) false is_en
      ∙ ap (map (get_key to_ru)) (lower-keys (c ∷ s) h)
      ∙ back-keys (c ∷ s) h

-- The switch of the keyboard layout is undone by another: for a text of Russian letters in lower case
-- that stand on no Latin key, which leaves out the dot, switching twice gives the text.
pub switch_keyboard_layout-switch_keyboard_layout :
    (s : Text) → all is_ru_letter s ≡ true → switch_keyboard_layout (switch_keyboard_layout s) ≡ s
unfolding switch_keyboard_layout lower
switch_keyboard_layout-switch_keyboard_layout [] h = refl
switch_keyboard_layout-switch_keyboard_layout (c ∷ s) h =
    ap switch_keyboard_layout (to_latin c s h) ∙ to_cyrillic c s h
