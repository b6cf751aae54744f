-- ===== src/Chat/Sending.antt =====
-- What `send_message` does: nothing, or one message of a participant.
use ozzb2b.Shared.{
  ℕ, ◌≡◌, refl, sym, ap, ◌∙◌, ◌⊎◌, inl, inr, Bool, true, false, some, List, [], ◌∷◌, ◌==◌, nat_eq,
  Text, strip, is_truthy, any, update, find, select, ok, guard, bind-holds, bind-eq-ok, check-eq-ok,
  one_or_raise, found_or, pure, arith, Result-cases, Bool-cases, if◌then◌else◌, subst,
}
use ozzb2b.Errors.{Error, error, multiple, conversation_not_found, chat_forbidden, integrity}
use ozzb2b.Domain.{User, Provider}
use ozzb2b.Chat.{
  Conversation, Message, ChatDb, ConversationWithPeer, can_access, peer_of, get_conversation,
  add_chat_message, touch_conversation, publish_message, new_message, store_message, send_message,
}

-- What a message that is sent has found and done.
pub record Sent (redis : Message → Bool) (sender : User) (conversation_id : ℕ) (body : Text)
    (id now : ℕ) (db db' : ChatDb) : Type 0 where
  pub conversation : Conversation
  pub provider : Provider
  pub listed :
      select (λ (c : Conversation). c.id == conversation_id) db.conversations ≡ conversation ∷ []
  pub peer : find (λ (p : Provider). p.id == conversation.provider_id) db.providers ≡ some provider
  pub allowed : can_access conversation sender provider ≡ true
  pub said : is_truthy (strip body) ≡ true
  pub new : any (λ (n : Message). n.id == id) db.messages ≡ false
  pub message : Message
  pub is_message : message ≡ new_message sender conversation.id (strip body) id now
  pub after : db' ≡ record db {
    conversations =
        update
          (λ (c : Conversation). c.id == conversation.id)
          (λ c. record c { last_message_at = some now })
          db.conversations;
    messages = message ∷ db.messages;
    published = if redis message then message ∷ db.published else db.published;
  }

one_listed :
    {A : Type 0} (xs : List A) (e many : Error) {x : A}
    → one_or_raise many e xs ≡ ok x
    → xs ≡ x ∷ []
one_listed [] e many h = cc
one_listed (x ∷ []) e many h = ground arith
one_listed (x ∷ y ∷ xs) e many h = cc

peer_of-eq-ok :
    (c : Conversation) (db : ChatDb) {peer : ConversationWithPeer}
    → (peer_of c db).0 ≡ ok peer
    → (peer.conversation ≡ c)
      × (find (λ (p : Provider). p.id == c.provider_id) db.providers ≡ some peer.provider)
unfolding peer_of
peer_of-eq-ok c db {peer} h =
    let (p, got, rest) =
      bind-eq-ok
        (λ (s : ChatDb). (
          found_or (error integrity "foreign key")
              (find (λ (p : Provider). p.id == c.provider_id) s.providers),
          s,
        ))
        (λ p. pure (record { conversation = c; provider = p })) db
        (ap (λ r. (r, (peer_of c db).1)) h) in
    (ground arith, ground arith)

peer_of_reads : (c : Conversation) (db : ChatDb) → (peer_of c db).1 ≡ db
unfolding peer_of
peer_of_reads c db =
    bind-holds (λ s. s ≡ db)
      (λ (s : ChatDb). (
        found_or (error integrity "foreign key")
            (find (λ (p : Provider). p.id == c.provider_id) s.providers),
        s,
      ))
      _ db refl λ p _. refl

-- a read leaves the tables
get_conversation_reads :
    (viewer : User) (id : ℕ) (db : ChatDb) → (get_conversation viewer id db).1 ≡ db
unfolding get_conversation peer_of
get_conversation_reads viewer id db =
    bind-holds (λ s. s ≡ db)
      (λ (s : ChatDb). (
        one_or_raise multiple (error conversation_not_found "conversation not found")
            (select (λ (c : Conversation). c.id == id) s.conversations),
        s,
      ))
      _ db refl
      λ c _.
        bind-holds (λ s. s ≡ db) (peer_of c) _ db (peer_of_reads c db)
          λ peer _.
            bind-holds (λ s. s ≡ db)
              (guard (can_access c viewer peer.provider) (error chat_forbidden "access denied")) _
              (peer_of c db).1 (peer_of_reads c db) λ _ _. peer_of_reads c db

-- and the viewer may see what it returns
pub get_conversation-eq-ok :
    (viewer : User) (id : ℕ) (db : ChatDb) {peer : ConversationWithPeer}
    → (get_conversation viewer id db).0 ≡ ok peer
    → (select (λ (c : Conversation). c.id == id) db.conversations ≡ peer.conversation ∷ [])
      × (find (λ (p : Provider). p.id == peer.conversation.provider_id) db.providers
          ≡ some peer.provider)
      × (can_access peer.conversation viewer peer.provider ≡ true)
unfolding get_conversation
get_conversation-eq-ok viewer id db {peer} h =
    let missing = error conversation_not_found "conversation not found" in
    let (c, got, rest) =
      bind-eq-ok
        (λ (s : ChatDb). (
          one_or_raise multiple missing (select (λ (c : Conversation). c.id == id) s.conversations),
          s,
        ))
        _ db (ap (λ r. (r, (get_conversation viewer id db).1)) h) in
    let (p, linked, rest') = bind-eq-ok (peer_of c) _ db rest in
    let (_, allowed, rest'') =
      bind-eq-ok (guard (can_access c viewer p.provider) (error chat_forbidden "access denied")) _
        (peer_of c db).1 rest' in
    let (same, there) = peer_of-eq-ok c db linked in
    let same_peer : p ≡ peer = ground (arith, rest'') in
    let listed = one_listed _ missing multiple got in
    let allowed' = check-eq-ok _ _ allowed in
    let conv : c ≡ peer.conversation =
      sym same ∙ ap (λ (q : ConversationWithPeer). q.conversation) same_peer in
    (
      subst (λ d. select (λ (c : Conversation). c.id == id) db.conversations ≡ d ∷ []) conv listed,
      subst
          (λ (d : Conversation).
            find (λ (p : Provider). p.id == d.provider_id) db.providers ≡ some peer.provider)
          conv (there ∙ ap (λ (q : ConversationWithPeer). some q.provider) same_peer),
      subst (λ d. can_access d viewer peer.provider ≡ true) conv
          (subst (λ (q : ConversationWithPeer). can_access c viewer q.provider ≡ true) same_peer
            allowed'),
    )

module _ (redis : Message → Bool) (sender : User) (conversation_id : ℕ) (body : Text)
    (id now : ℕ) where
  -- A message comes from a participant: `send_message` leaves the tables and the broker as they
  -- were, or the text was not blank, the conversation was there, the sender was its client, the
  -- provider's owner or an admin, and exactly one message of the sender with the stripped text was
  -- added, with its time on the conversation, and handed to the broker once if it was up.
  pub send_message_lem :
      (db : ChatDb)
      → ((send_message redis sender conversation_id body id now db).1 ≡ db)
        ⊎ Sent redis sender conversation_id body id now db
            (send_message redis sender conversation_id body id now db).1
  unfolding send_message store_message add_chat_message touch_conversation publish_message
  send_message_lem db = elim (Bool-cases (is_truthy (strip body))) [
    | inr blank ↦ rw blank (inl refl)
    | inl said ↦ elim (Result-cases (get_conversation sender conversation_id db).0) [
      | inr (x, e) ↦ rw (said, e) (inl (get_conversation_reads sender conversation_id db))
      | inl (peer, e) ↦
          let (listed, there, allowed) = get_conversation-eq-ok sender conversation_id db e in
          elim (Bool-cases (any (λ (n : Message). n.id == id) db.messages)) [
            | inl taken ↦
                rw (said, e, get_conversation_reads sender conversation_id db, taken) (inl refl)
            | inr fresh ↦
                rw (said, e, get_conversation_reads sender conversation_id db, fresh)
                  (inr (record {
                    conversation = peer.conversation;
                    provider = peer.provider;
                    listed = listed;
                    peer = there;
                    allowed = allowed;
                    said = said;
                    new = fresh;
                    message = new_message sender peer.conversation.id (strip body) id now;
                    is_message = refl;
                    after = refl;
                  }))
          ]
    ]
  ]
