-- ===== src/Chat.antt =====
-- Conversations between a client and a provider: apps/api/src/ozzb2b_api/services/chat.py, with the
-- rows of db/models/chat.py and the error answers of routes/chat.py. A message that Redis took for
-- the live gateway stands in `published`, newest first.
pub mod Access
pub mod Sending
pub mod Paging
pub mod Routes
pub mod Socket
mod Tests
use ozzb2b.Shared.{
  ℕ, Bool, true, false, not, ◌&&◌, ◌||◌, Option, none, some, List, [], ◌∷◌, ◌==◌, nat_eq, text_eq,
  option_nat_eq, ltb, leb, if◌then◌else◌, Text, strip, is_truthy, any, select, find, update, take,
  count, sort_by, Exec, Result, ok, err, ◌>>=◌, ◌>>◌, pure, gets, lift, guard, or_raise, modify,
  one_or_raise, found_or, scalar_one_or_none, is_some,
}
use ozzb2b.Errors.{
  Error, error, multiple, violation, integrity, chat, provider_not_found, conversation_not_found,
  chat_forbidden, http,
}
use ozzb2b.Domain.{User, is_admin, Provider, is_published}

pub record Conversation : Type 0 where
  pub id : ℕ
  pub user_id : ℕ
  pub provider_id : ℕ
  pub last_message_at : Option ℕ
  pub is_active : Bool
  pub created_at : ℕ

pub record Message : Type 0 where
  pub id : ℕ
  pub conversation_id : ℕ
  pub sender_user_id : ℕ
  pub body : Text
  pub created_at : ℕ

pub record ChatDb : Type 0 where
  pub providers : List Provider
  pub conversations : List Conversation
  pub messages : List Message
  pub published : List Message

pub record ConversationWithPeer : Type 0 where
  pub conversation : Conversation
  pub provider : Provider

-- whether the provider is claimed by the user
abbrev pub is_claimed_by : User → Provider → Bool
is_claimed_by user provider = provider.claimed_by_user_id == some user.id

-- _can_access
pub can_access : Conversation → User → Provider → Bool
can_access conv user provider =
    is_admin user.role || (conv.user_id == user.id || is_claimed_by user provider)

pub load_provider_by_slug : Text → Exec ChatDb Error Provider
load_provider_by_slug slug db = (
  one_or_raise multiple (error provider_not_found "provider not found")
      (select (λ (p : Provider). p.slug == slug && is_published p.status) db.providers),
  db,
)

-- INSERT, under the primary key and uq_conversations_user_provider
pub add_conversation : Conversation → Exec ChatDb Error Unit
add_conversation c db =
    if any (λ e. e.id == c.id || (e.user_id == c.user_id && e.provider_id == c.provider_id))
      db.conversations
    then (err violation, db)
    else (ok tt, record db { conversations = c ∷ db.conversations })

abbrev pub is_between : ℕ → ℕ → Conversation → Bool
is_between user_id provider_id c = c.user_id == user_id && c.provider_id == provider_id

abbrev pub new_conversation : User → Provider → ℕ → ℕ → Conversation
new_conversation user provider id now = record {
  id = id;
  user_id = user.id;
  provider_id = provider.id;
  last_message_at = none;
  is_active = true;
  created_at = now;
}

pub existing_or_new : User → Provider → ℕ → ℕ → Option Conversation → Exec ChatDb Error Conversation
existing_or_new user provider id now (some c) = pure c
existing_or_new user provider id now none = do
  add_conversation (new_conversation user provider id now)
  pure (new_conversation user provider id now)

pub start_or_get_conversation : User → Text → ℕ → ℕ → Exec ChatDb Error Conversation
start_or_get_conversation client_user provider_slug id now = do
  provider ← load_provider_by_slug provider_slug
  existing ← λ db. (
    scalar_one_or_none multiple (select (is_between client_user.id provider.id) db.conversations),
    db,
  )
  existing_or_new client_user provider id now existing

-- the WHERE clause of list_conversations
pub is_listed : User → ChatDb → Conversation → Bool
is_listed viewer db c =
    is_admin viewer.role
    || (c.user_id == viewer.id
        || any (λ p. p.id == c.provider_id && is_claimed_by viewer p) db.providers)

-- `last_message_at DESC NULLS LAST, created_at DESC`
pub is_more_recent : Conversation → Conversation → Bool
is_more_recent c d = elim c.last_message_at [
  | none ↦ not (is_some d.last_message_at) && leb d.created_at c.created_at
  | some a ↦ (elim d.last_message_at [
    | none ↦ true
    | some b ↦ ltb b a || (b == a && leb d.created_at c.created_at)
  ])
]

pub list_conversations : User → ChatDb → List Conversation
list_conversations viewer db =
    sort_by is_more_recent (select (is_listed viewer db) db.conversations)

-- `selectinload(Conversation.provider)`; the foreign key keeps the row there
pub peer_of : Conversation → Exec ChatDb Error ConversationWithPeer
peer_of c = do
  provider ← λ db. (
    found_or (error integrity "foreign key")
        (find (λ (p : Provider). p.id == c.provider_id) db.providers),
    db,
  )
  pure (record { conversation = c; provider = provider })

pub get_conversation : User → ℕ → Exec ChatDb Error ConversationWithPeer
get_conversation viewer conversation_id = do
  conv ← λ db. (
    one_or_raise multiple (error conversation_not_found "conversation not found")
        (select (λ (c : Conversation). c.id == conversation_id) db.conversations),
    db,
  )
  peer ← peer_of conv
  guard (can_access conv viewer peer.provider) (error chat_forbidden "access denied")
  pure peer

-- `order_by(created_at.desc())`
abbrev pub is_newer : Message → Message → Bool
is_newer m n = leb n.created_at m.created_at

-- the WHERE clause for `before`: a row that is not there gives no bound
pub is_before : Option Message → Message → Bool
is_before none m = true
is_before (some anchor) m = ltb m.created_at anchor.created_at

abbrev pub anchor_of : ChatDb → Option ℕ → Option Message
anchor_of db none = none
anchor_of db (some id) = find (λ (m : Message). m.id == id) db.messages

abbrev pub is_in : ℕ → Message → Bool
is_in conversation_id m = m.conversation_id == conversation_id

pub reverse_onto : List Message → List Message → List Message
reverse_onto acc [] = acc
reverse_onto acc (m ∷ ms) = reverse_onto (m ∷ acc) ms

-- the rows of the query, newest first
pub newest : ChatDb → ℕ → ℕ → Option ℕ → List Message
newest db conversation_id limit before = take limit (
    sort_by is_newer
      (select (λ m. is_in conversation_id m && is_before (anchor_of db before) m) db.messages))

pub list_messages : User → ℕ → ℕ → Option ℕ → Exec ChatDb Error (ℕ × List Message)
list_messages viewer conversation_id limit before = do
  get_conversation viewer conversation_id
  gets λ db. (
    count (is_in conversation_id) db.messages,
    reverse_onto [] (newest db conversation_id limit before),
  )

-- INSERT, under the primary key
pub add_chat_message : Message → Exec ChatDb Error Unit
add_chat_message m db =
    if any (λ (n : Message). n.id == m.id) db.messages
    then (err violation, db)
    else (ok tt, record db { messages = m ∷ db.messages })

pub touch_conversation : ℕ → ℕ → Exec ChatDb Error Unit
touch_conversation id now = modify λ db. record db {
  conversations =
      update (λ (c : Conversation). c.id == id) (λ c. record c { last_message_at = some now })
        db.conversations;
}

-- _publish_message: a failure of Redis is swallowed
pub publish_message : (Message → Bool) → Message → Exec ChatDb Error Unit
publish_message redis m =
    modify λ db. record db { published = if redis m then m ∷ db.published else db.published }

abbrev pub new_message : User → ℕ → Text → ℕ → ℕ → Message
new_message sender conversation_id body id now = record {
  id = id;
  conversation_id = conversation_id;
  sender_user_id = sender.id;
  body = body;
  created_at = now;
}

-- the writes of a message
pub store_message : (Message → Bool) → Message → Exec ChatDb Error Message
store_message redis m = do
  add_chat_message m
  touch_conversation m.conversation_id m.created_at
  publish_message redis m
  pure m

-- `redis` says which messages the broker takes; `id` and `now` are the fresh key and the clock
pub send_message : (Message → Bool) → User → ℕ → Text → ℕ → ℕ → Exec ChatDb Error Message
send_message redis sender conversation_id body id now = do
  guard (is_truthy (strip body)) (error chat "message body must not be empty")
  peer ← get_conversation sender conversation_id
  store_message redis (new_message sender peer.conversation.id (strip body) id now)

-- the `except` clauses of the endpoints
pub chat_answer : Error → Error
chat_answer e = elim e.cls [
  | provider_not_found ↦ error (http 404) e.detail
  | conversation_not_found ↦ error (http 404) e.detail
  | chat_forbidden ↦ error (http 403) e.detail
  | chat ↦ error (http 400) e.detail
  | _ ↦ e
]
