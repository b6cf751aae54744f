-- ===== src/Chat/Paging.antt =====
-- Reading a conversation page by page, from the newest message back.
use ozzb2b.Shared.{
  ℕ, zero, suc, ◌+◌, ◌<◌, ◌≤◌, ◌≡◌, refl, sym, ap, subst, ◌∙◌, Bool, true, false, ◌&&◌, Option,
  some, none, List, [], ◌∷◌, ◌++◌, ◌==◌, nat_eq, ltb, All, select, take, find, sort_by,
  select-sort_by, sort_by-IsSorted, IsSorted, All-sort_by, arith, Bool-cases, inl, inr, any,
  insert_by, any-insert_by, any-sort_by, IsUnique, eq_refl, nat_beq_iff, All-select_of, All-take,
}
use ozzb2b.Chat.{Message, ChatDb, is_newer, is_before, is_in, anchor_of, newest}

-- each message is older than those before it
abbrev pub IsStrict : List Message → Type 0
IsStrict [] = Unit
IsStrict (m ∷ ms) = All (λ (n : Message). n.created_at < m.created_at) ms × IsStrict ms

-- the last message of a page: the oldest one that its reader has
abbrev pub oldest : Message → List Message → Message
oldest m [] = m
oldest m (n ∷ ms) = oldest n ms

abbrev drop : {A : Type 0} → ℕ → List A → List A
drop zero xs = xs
drop (suc n) [] = []
drop (suc n) (x ∷ xs) = drop n xs

take_nil : {A : Type 0} (k : ℕ) → take {A = A} k [] ≡ []
take_nil zero = refl
take_nil (suc k) = refl

take-drop :
    {A : Type 0} (n k j : ℕ) (xs : List A) → j ≡ n + k → take j xs ≡ take n xs ++ take k (drop n xs)
take-drop zero k j xs e = ap (λ (i : ℕ). take i xs) (omega arith)
take-drop (suc n) k zero xs e = absurd (omega arith)
take-drop (suc n) k (suc j) [] e = sym (take_nil k)
take-drop (suc n) k (suc j) (x ∷ xs) e =
    ap (λ (r : List _). x ∷ r) (take-drop n k j xs (omega arith))

is_newer_total : (m n : Message) → is_newer m n ≡ false → is_newer n m ≡ true
is_newer_total m n h = ground arith

is_newer_trans : (m n o : Message) → is_newer m n ≡ true → is_newer n o ≡ true → is_newer m o ≡ true
is_newer_trans m n o h k = ground arith

select-All :
    (t : ℕ) (ms : List Message)
    → All (λ (n : Message). n.created_at < t) ms
    → select (λ (n : Message). ltb n.created_at t) ms ≡ ms
unfolding select
select-All t [] h = refl
select-All t (m ∷ ms) h = ground (arith, select-All t ms h.1, h.0)

oldest-le :
    (n : ℕ) (m : Message) (ms : List Message)
    → IsStrict (m ∷ ms)
    → (oldest m (take n ms)).created_at ≤ m.created_at
oldest-le zero m ms h = omega arith
oldest-le (suc n) m [] h = omega arith
oldest-le (suc n) m (x ∷ ms) h = omega (arith, oldest-le n x ms h.1, h.0.0)

-- the messages before the oldest of the first ones are all the others
select-oldest :
    (n : ℕ) (m : Message) (ms : List Message)
    → IsStrict (m ∷ ms)
    → select (is_before (some (oldest m (take n ms)))) (m ∷ ms) ≡ drop n ms
unfolding select is_before
select-oldest zero m ms h = ground (arith, select-All m.created_at ms h.0)
select-oldest (suc n) m [] h = ground arith
select-oldest (suc n) m (x ∷ ms) h =
    ground (arith, oldest-le n x ms h.1, h.0.0, select-oldest n x ms h.1)

-- times that are all different make the sorted messages strictly older and older
abbrev IsTimed : List Message → Type 0
IsTimed = IsUnique (λ (m : Message). m.created_at)

insert_by-IsTimed :
    (x : Message) (ys : List Message)
    → any (λ (y : Message). y.created_at == x.created_at) ys ≡ false
    → IsTimed ys
    → IsTimed (insert_by is_newer x ys)
unfolding insert_by any
insert_by-IsTimed x [] f u = (refl, tt)
insert_by-IsTimed x (y ∷ ys) f u = elim (Bool-cases (is_newer x y)) [
  | inl e ↦ rw e (f, u)
  | inr e ↦ rw e (
    ground (
      arith,
      any-insert_by is_newer (λ (z : Message). z.created_at == y.created_at) x ys,
      u.0,
      f,
    ),
    insert_by-IsTimed x ys (ground (arith, f)) u.1,
  )
]

sort_by-IsTimed : (xs : List Message) → IsTimed xs → IsTimed (sort_by is_newer xs)
unfolding sort_by
sort_by-IsTimed [] u = tt
sort_by-IsTimed (x ∷ xs) u =
    insert_by-IsTimed x (sort_by is_newer xs)
      (any-sort_by is_newer (λ (y : Message). y.created_at == x.created_at) xs ∙ u.0)
      (sort_by-IsTimed xs u.1)

any-select-false :
    (p q : Message → Bool) (xs : List Message) → any p xs ≡ false → any p (select q xs) ≡ false
unfolding any select
any-select-false p q [] e = refl
any-select-false p q (x ∷ xs) e = ground (arith, any-select-false p q xs)

select-IsTimed : (q : Message → Bool) (xs : List Message) → IsTimed xs → IsTimed (select q xs)
unfolding select
select-IsTimed q [] u = tt
select-IsTimed q (x ∷ xs) u = elim (Bool-cases (q x)) [
  | inl e ↦ rw e (any-select-false _ q xs u.0, select-IsTimed q xs u.1)
  | inr e ↦ rw e (select-IsTimed q xs u.1)
]

strictly_older :
    (m : Message) (ms : List Message)
    → All (λ n. is_newer m n ≡ true) ms
    → any (λ (n : Message). n.created_at == m.created_at) ms ≡ false
    → All (λ (n : Message). n.created_at < m.created_at) ms
unfolding any
strictly_older m [] s u = tt
strictly_older m (n ∷ ms) s u = (ground (arith, s.0), strictly_older m ms s.1 (ground (arith, u)))

sorted-IsStrict : (ms : List Message) → IsSorted is_newer ms → IsTimed ms → IsStrict ms
sorted-IsStrict [] s u = tt
sorted-IsStrict (m ∷ ms) s u = (strictly_older m ms s.0 u.0, sorted-IsStrict ms s.1 u.1)

-- a message of the table is what a search by its id finds
module _ (all : List Message) where
  abbrev IsThere : Message → Type 0
  IsThere m = find (λ (n : Message). n.id == m.id) all ≡ some m

rows_remain :
    (x : Message) (xs ys : List Message)
    → any (λ (y : Message). y.id == x.id) ys ≡ false
    → All (IsThere xs) ys
    → All (IsThere (x ∷ xs)) ys
unfolding find any
rows_remain x xs [] f h = tt
rows_remain x xs (y ∷ ys) f h = (
  ground (arith, f, h.0, nat_beq_iff x.id y.id, nat_beq_iff y.id x.id),
  rows_remain x xs ys (ground (arith, f)) h.1,
)

All-IsThere : (xs : List Message) → IsUnique (λ (m : Message). m.id) xs → All (IsThere xs) xs
unfolding find
All-IsThere [] u = tt
All-IsThere (x ∷ xs) u = (rw (eq_refl x.id) refl, rows_remain x xs xs u.0 (All-IsThere xs u.1))

All-oldest :
    (P : Message → Type 0) (m : Message) (ms : List Message) → All P (m ∷ ms) → P (oldest m ms)
All-oldest P m [] h = h.0
All-oldest P m (n ∷ ms) h = All-oldest P n ms h.1

select-select :
    (p q : Message → Bool) (xs : List Message)
    → select (λ x. p x && q x) xs ≡ select q (select p xs)
unfolding select
select-select p q [] = refl
select-select p q (x ∷ xs) = ground (arith, select-select p q xs)

-- the messages of a conversation, newest first
abbrev pub history : ChatDb → ℕ → List Message
history db conversation_id = sort_by is_newer (select (is_in conversation_id) db.messages)

newest-history :
    (db : ChatDb) (conversation_id limit : ℕ) (before : Option ℕ)
    → newest db conversation_id limit before
      ≡ take limit (select (is_before (anchor_of db before)) (history db conversation_id))
unfolding newest
newest-history db conversation_id limit before = ap (take limit) (
    ap (sort_by is_newer)
      (select-select (is_in conversation_id) (is_before (anchor_of db before)) db.messages)
    ∙ sym (
        select-sort_by is_newer is_newer_total is_newer_trans (is_before (anchor_of db before))
          (select (is_in conversation_id) db.messages)))

select_true : (ms : List Message) → select (is_before none) ms ≡ ms
unfolding select is_before
select_true [] = refl
select_true (m ∷ ms) = ap (λ (r : List Message). m ∷ r) (select_true ms)

-- on a history, the page before the oldest message of a page is what follows it
older_page :
    (hs : List Message) (n k : ℕ) (m : Message) (ms : List Message)
    → IsStrict hs
    → take n hs ≡ m ∷ ms
    → take (n + k) hs ≡ take n hs ++ take k (select (is_before (some (oldest m ms))) hs)
older_page hs zero k m ms s e = cc
older_page [] (suc n) k m ms s e = cc
older_page (h ∷ hs) (suc n) k m ms s e =
    let first : h ≡ m = cc in
    let others : take n hs ≡ ms = cc in
    subst
      (λ p.
        take (suc n + k) (h ∷ hs) ≡ h ∷ take n hs ++ take k (select (is_before (some p)) (h ∷ hs)))
      (ap (λ a. oldest a (take n hs)) first ∙ ap (oldest m) others)
      (rw (select-oldest n h hs s) (take-drop (suc n) k (suc n + k) (h ∷ hs) (omega arith)))

-- Paging back loses nothing and repeats nothing, when ids and times are all different: the page
-- before the oldest message of a page that is not empty is just what follows it, so the two
-- together are the larger page.
pub newest-older :
    (db : ChatDb) (conversation_id n k : ℕ) (m : Message) (ms : List Message)
    → IsUnique (λ (m : Message). m.id) db.messages
    → IsUnique (λ (m : Message). m.created_at) db.messages
    → newest db conversation_id n none ≡ m ∷ ms
    → newest db conversation_id (n + k) none
      ≡ newest db conversation_id n none ++ newest db conversation_id k (some (oldest m ms).id)
newest-older db conversation_id n k m ms ids times e =
    let hs = history db conversation_id in
    let there : IsThere db.messages (oldest m ms) = All-oldest (IsThere db.messages) m ms (
      subst (All (IsThere db.messages)) e (
        rw (newest_first n) (
          All-take (IsThere db.messages) n hs (
            All-sort_by is_newer (IsThere db.messages) _ (
              All-select_of is_newer (IsThere db.messages) (is_in conversation_id) db.messages
                (All-IsThere db.messages ids)))))) in
    rw
      (
        newest_first (n + k),
        newest_first n,
        newest-history db conversation_id k (some (oldest m ms).id),
        there,
      )
      (older_page hs n k m ms strict (sym (newest_first n) ∙ e))
  where
    newest_first : (l : ℕ) → newest db conversation_id l none ≡ take l (history db conversation_id)
    newest_first l =
        newest-history db conversation_id l none
        ∙ ap (take l) (select_true (history db conversation_id))

    strict : IsStrict (history db conversation_id)
    strict =
        sorted-IsStrict (history db conversation_id)
          (sort_by-IsSorted is_newer is_newer_total is_newer_trans _)
          (sort_by-IsTimed _ (select-IsTimed (is_in conversation_id) db.messages times))
