-- ===== src/Chat/Access.antt =====
-- Who sees a conversation: the list and the single reads agree.
use ozzb2b.Shared.{
  ℕ, ◌≡◌, refl, ◌∙◌, Bool, true, false, ◌&&◌, none, some, List, [], ◌∷◌, ◌==◌, nat_eq,
  option_nat_eq, nat_beq_iff, any, select, find, any-sort_by, is_some, All, IsUnique,
  select-IsUnique, Result, ok, err, arith, Bool-cases, Option-cases, inl, inr, if◌then◌else◌,
}
use ozzb2b.Errors.{Error, error, chat_forbidden}
use ozzb2b.Domain.{User, Provider}
use ozzb2b.Chat.{
  Conversation, ChatDb, is_claimed_by, can_access, is_listed, is_more_recent, list_conversations,
  peer_of, get_conversation,
}

abbrev pub HasProvider : ChatDb → Conversation → Type 0
HasProvider db c = is_some (find (λ (p : Provider). p.id == c.provider_id) db.providers) ≡ true

-- The constraints of the schema on these rows: keys are unique, and each conversation's provider is there.
pub record IsLinked (db : ChatDb) : Type 0 where
  pub conversation_ids : IsUnique (λ (c : Conversation). c.id) db.conversations
  pub provider_ids : IsUnique (λ (p : Provider). p.id) db.providers
  pub linked : All (HasProvider db) db.conversations

-- a test that implies one that no row passes
any-and :
    {A : Type 0} (p q : A → Bool) (xs : List A)
    → ((x : A) → q x ≡ true → p x ≡ true)
    → any p xs ≡ false
    → any q xs ≡ false
unfolding any
any-and p q [] h e = refl
any-and p q (x ∷ xs) h e = ground (arith, h x, any-and p q xs h)

All-find :
    {A : Type 0} (P : A → Type 0) (q : A → Bool) (xs : List A) {x : A}
    → All P xs
    → find q xs ≡ some x
    → P x
unfolding find
All-find P q [] h e = cc
All-find P q (y ∷ ys) {x} h e = elim (Bool-cases (q y)) [
  | inl hit ↦ ground (arith, hit, h.0)
  | inr miss ↦ All-find P q ys h.1 (rw miss at e)
]

-- among unique rows, the row found decides whether any row with its key passes
any-find :
    {A : Type 0} (key : A → ℕ) (k : ℕ) (q : A → Bool) (xs : List A) {x : A}
    → IsUnique key xs
    → find (λ y. key y == k) xs ≡ some x
    → any (λ y. key y == k && q y) xs ≡ q x
unfolding any find
any-find key k q [] u e = cc
any-find key k q (y ∷ ys) {x} u e = elim (Bool-cases (key y == k)) [
  | inl hit ↦ ground (
    arith,
    hit,
    nat_beq_iff (key y) k,
    any-and (λ z. key z == key y) (λ z. key z == k && q z) ys
        (λ z. ground (arith, nat_beq_iff (key y) k)) u.0,
  )
  | inr miss ↦ ground (arith, miss, any-find key k q ys {x = x} u.1)
]

any-select :
    {A : Type 0} (p q : A → Bool) (xs : List A) → any p (select q xs) ≡ any (λ x. p x && q x) xs
unfolding any select
any-select p q [] = refl
any-select p q (x ∷ xs) = ground (arith, any-select p q xs)

pub is_ok : {A : Type 0} → Result Error A → Bool
is_ok (ok a) = true
is_ok (err e) = false

-- the visibility of a row that is there, by the query and by `_can_access`
module _ (viewer : User) (db : ChatDb) (c : Conversation) (p : Provider) where
  is_listed-can_access :
      IsUnique (λ (p : Provider). p.id) db.providers
      → find (λ (p : Provider). p.id == c.provider_id) db.providers ≡ some p
      → is_listed viewer db c ≡ can_access c viewer p
  unfolding is_listed can_access
  is_listed-can_access u e =
      rw (any-find (λ (p : Provider). p.id) c.provider_id (is_claimed_by viewer) db.providers u e)
        refl

  -- what the single read answers for a row that is there
  get_conversation-found :
      (id : ℕ)
      → IsLinked db
      → find (λ (d : Conversation). d.id == id) db.conversations ≡ some c
      → find (λ (p : Provider). p.id == c.provider_id) db.providers ≡ some p
      → (get_conversation viewer id db).0 ≡ (
          if can_access c viewer p
          then ok (record { conversation = c; provider = p })
          else err (error chat_forbidden "access denied"))
  unfolding get_conversation peer_of
  get_conversation-found id l e e' =
      rw
        (select-IsUnique (λ (d : Conversation). d.id) id db.conversations l.conversation_ids, e, e')
        (ground arith)

any-of_find-none : {A : Type 0} (p : A → Bool) (xs : List A) → find p xs ≡ none → any p xs ≡ false
unfolding any find
any-of_find-none p [] e = refl
any-of_find-none p (x ∷ xs) e = ground (arith, any-of_find-none p xs)

missing :
    (viewer : User) (id : ℕ) (db : ChatDb)
    → IsLinked db
    → find (λ (c : Conversation). c.id == id) db.conversations ≡ none
    → any (λ (c : Conversation). c.id == id && is_listed viewer db c) db.conversations
      ≡ is_ok (get_conversation viewer id db).0
unfolding get_conversation is_ok
missing viewer id db l e =
    any-and (λ (c : Conversation). c.id == id) (λ c. c.id == id && is_listed viewer db c)
      db.conversations (λ c. ground arith)
      (any-of_find-none (λ (c : Conversation). c.id == id) db.conversations e)
    ∙ (rw (select-IsUnique (λ (d : Conversation). d.id) id db.conversations l.conversation_ids, e)
        refl)

present :
    (viewer : User) (id : ℕ) (db : ChatDb) (c : Conversation)
    → IsLinked db
    → find (λ (c : Conversation). c.id == id) db.conversations ≡ some c
    → any (λ (c : Conversation). c.id == id && is_listed viewer db c) db.conversations
      ≡ is_ok (get_conversation viewer id db).0
unfolding is_ok
present viewer id db c l e =
    elim (Option-cases (find (λ (p : Provider). p.id == c.provider_id) db.providers)) [
      | inl gone ↦ absurd (
          ground
            (arith, gone, All-find (HasProvider db) (λ d. d.id == id) db.conversations l.linked e))
      | inr (p, there) ↦
          any-find (λ (d : Conversation). d.id) id (is_listed viewer db) db.conversations
            l.conversation_ids e
          ∙ (is_listed-can_access viewer db c p l.provider_ids there
              ∙ (rw (get_conversation-found viewer db c p id l e there)
                  (elim (Bool-cases (can_access c viewer p)) [
                    | inl y ↦ rw y refl
                    | inr n ↦ rw n refl
                  ])))
    ]

-- The list and the single reads agree, in tables whose keys are unique and whose conversations have
-- their providers: a conversation is in a viewer's list exactly when reading it by its id returns.
pub list_conversations-get_conversation :
    (viewer : User) (id : ℕ) (db : ChatDb)
    → IsLinked db
    → any (λ (c : Conversation). c.id == id) (list_conversations viewer db)
      ≡ is_ok (get_conversation viewer id db).0
unfolding list_conversations is_ok
list_conversations-get_conversation viewer id db l =
    any-sort_by is_more_recent (λ (c : Conversation). c.id == id) _
    ∙ (any-select (λ (c : Conversation). c.id == id) (is_listed viewer db) db.conversations
        ∙ elim (Option-cases (find (λ (c : Conversation). c.id == id) db.conversations)) [
          | inl e ↦ missing viewer id db l e
          | inr (c, e) ↦ present viewer id db c l e
        ])
