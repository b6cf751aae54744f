-- ===== src/Chat/Routes.antt =====
-- The endpoints of the chat: apps/api/src/ozzb2b_api/routes/chat.py, with the events that they emit. The
-- column updated_at is left out, and so are the bounds of the query parameters but for the body.
use ozzb2b.Shared.{
  ℕ, Bool, ◌&&◌, Option, none, some, List, ◌++◌, map, ◌==◌, nat_eq, if◌then◌else◌, leb, find, Text,
  codes, length, Exec, Result, ok, err, ◌>>=◌, ◌>>◌, pure, guard, modify,
}
use ozzb2b.Errors.{Error, error, http, provider_not_found}
use ozzb2b.Domain.{User, Provider}
use ozzb2b.Events.{EventEmitter, Published, emit}
use ozzb2b.RateLimit.{Redis, LimitSettings, enforce_rate_limit}
use ozzb2b.Tokens.{Jwt, JwtSettings, create_ws_chat_token}
use ozzb2b.Chat.{
  Conversation, Message, ChatDb, start_or_get_conversation, list_conversations, get_conversation,
  list_messages, send_message, chat_answer,
}

pub record ConversationPeer : Type 0 where
  pub provider_id : ℕ
  pub provider_slug : Text
  pub provider_display_name : Text

pub record ConversationPublic : Type 0 where
  pub id : ℕ
  pub user_id : ℕ
  pub provider_id : ℕ
  pub last_message_at : Option ℕ
  pub is_active : Bool
  pub created_at : ℕ
  pub peer : Option ConversationPeer

pub record ConversationList : Type 0 where
  pub total : ℕ
  pub items : List ConversationPublic

pub record MessageList : Type 0 where
  pub total : ℕ
  pub items : List Message

pub record WsToken : Type 0 where
  pub token : Text
  pub expires_at : ℕ
  pub ws_url : Text

pub peer_public : Option Provider → Option ConversationPeer
peer_public none = none
peer_public (some p) =
    some (record {
      provider_id = p.id;
      provider_slug = p.slug;
      provider_display_name = p.display_name;
    })

pub conversation_public : Conversation → Option Provider → ConversationPublic
conversation_public c provider = record {
  id = c.id;
  user_id = c.user_id;
  provider_id = c.provider_id;
  last_message_at = c.last_message_at;
  is_active = c.is_active;
  created_at = c.created_at;
  peer = peer_public provider;
}

-- the properties of the two events
pub data ChatEvent : Type 0 where
  chat_started : ℕ → ℕ → Text → ChatEvent
  chat_message_sent : ℕ → ℕ → ℕ → ChatEvent

-- the tables, the store of the rate limiter and the stream of events
pub record ChatWorld (S N : Type 0) : Type 0 where
  pub db : ChatDb
  pub limiter : S
  pub events : Published N

-- what `issue_ws_token` reads from the settings
pub record WsSettings : Type 0 where
  pub limits : LimitSettings
  pub rate_limit_ws_token_max : ℕ
  pub is_production : Bool

unfoldable pub ws_url_for : WsSettings → Text → Text
ws_url_for cfg token =
    if cfg.is_production
    then codes "wss://api.ozzb2b.com/chat/ws?token=" ++ token
    else codes "ws://localhost:8090/ws?token=" ++ token

-- the token that `issue_ws_token` answers with
unfoldable pub ws_token :
    Jwt → JwtSettings → WsSettings → (ℕ → Text) → User → ℕ → Text → ℕ → ℕ → WsToken
ws_token jwt jwt_cfg cfg str_of user conversation_id jti now issued =
    let made =
      create_ws_chat_token jwt jwt_cfg (str_of user.id) (str_of conversation_id) jti now issued in
    record { token = made.0; expires_at = made.1; ws_url = ws_url_for cfg made.0 }

-- `except ProviderNotFoundError`
abbrev pub as_missing : Error → Error
as_missing e = elim e.cls [ provider_not_found ↦ error (http 404) e.detail | _ ↦ e ]

abbrev pub on_error : {A : Type 0} → (Error → Error) → Result Error A → Result Error A
on_error f (ok a) = ok a
on_error f (err e) = err (f e)

module _ {S N : Type 0} where
  -- a call of the service, with its `except` clauses
  abbrev pub service :
      {A : Type 0} → (Error → Error) → Exec ChatDb Error A → Exec (ChatWorld S N) Error A
  service f m w = (on_error f (m w.db).0, record w { db = (m w.db).1 })

  abbrev pub limited : Exec S Error (Unit {0}) → Exec (ChatWorld S N) Error (Unit {0})
  limited m w = ((m w.limiter).0, record w { limiter = (m w.limiter).1 })

  module _ (xadd : Text → Text → ℕ → N → Bool × N) (emitter : EventEmitter)
      (payload : Option ℕ → ChatEvent → Text) where
    pub emit_event : ℕ → ChatEvent → Exec (ChatWorld S N) Error (Unit {0})
    emit_event user_id event =
        modify λ w. record w { events = emit xadd emitter (payload (some user_id) event) w.events }

    pub start_conversation : User → Text → ℕ → ℕ → Exec (ChatWorld S N) Error ConversationPublic
    start_conversation user provider_slug id now = do
      conv ← service as_missing (start_or_get_conversation user provider_slug id now)
      peer ← service (λ e. e) (get_conversation user conv.id)
      emit_event user.id (chat_started peer.conversation.id peer.provider.id peer.provider.slug)
      pure (conversation_public peer.conversation (some peer.provider))

    pub send_message_endpoint :
        (Message → Bool) → User → ℕ → Text → ℕ → ℕ → Exec (ChatWorld S N) Error Message
    send_message_endpoint redis user conversation_id body id now = do
      guard (leb 1 (length body) && leb (length body) 8000)
          (error (http 422) "Unprocessable Entity")
      message ← service chat_answer (send_message redis user conversation_id body id now)
      emit_event user.id (chat_message_sent conversation_id message.id (length message.body))
      pure message

  -- each conversation with the provider that it is with
  pub list_conversations_endpoint : User → Exec (ChatWorld S N) Error ConversationList
  list_conversations_endpoint user w =
      let rows = list_conversations user w.db in
      (
        ok (record {
          total = length rows;
          items =
              map
                (λ (c : Conversation).
                  conversation_public c
                    (find (λ (p : Provider). p.id == c.provider_id) w.db.providers))
                rows;
        }),
        w,
      )

  pub get_conversation_endpoint : User → ℕ → Exec (ChatWorld S N) Error ConversationPublic
  get_conversation_endpoint user conversation_id = do
    row ← service chat_answer (get_conversation user conversation_id)
    pure (conversation_public row.conversation (some row.provider))

  pub list_messages_endpoint : User → ℕ → ℕ → Option ℕ → Exec (ChatWorld S N) Error MessageList
  list_messages_endpoint user conversation_id limit before = do
    found ← service chat_answer (list_messages user conversation_id limit before)
    pure (record { total = found.0; items = found.1 })

  -- `str_of` is `str(uuid)`, `jti`, `now` and `issued` what the making of the token draws and reads
  module _ (redis : Redis S) (jwt : Jwt) (jwt_cfg : JwtSettings) (cfg : WsSettings)
      (str_of : ℕ → Text) where
    unfoldable pub limit_ws :
        List (Text × Text) → Option Text → User → Exec (ChatWorld S N) Error (Unit {0})
    limit_ws headers host user = limited (
        enforce_rate_limit redis cfg.limits headers host (codes "ws_token")
          cfg.rate_limit_ws_token_max (some (str_of user.id)))

    unfoldable pub issue_ws_token :
        List (Text × Text)
        → Option Text
        → User
        → ℕ
        → Text
        → ℕ
        → ℕ
        → Exec (ChatWorld S N) Error WsToken
    issue_ws_token headers host user conversation_id jti now issued = do
      limit_ws headers host user
      service chat_answer (get_conversation user conversation_id)
      pure (ws_token jwt jwt_cfg cfg str_of user conversation_id jti now issued)
