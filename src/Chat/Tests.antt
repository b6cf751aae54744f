-- ===== src/Chat/Tests.antt =====
-- Runs of the chat on small tables, and its theorems applied there.
use ozzb2b.Shared.{
  ℕ, ◌+◌, ◌/◌, ◌≡◌, refl, ◌⊎◌, Bool, true, false, Option, none, some, List, [], ◌∷◌, ◌++◌, ◌==◌,
  nat_eq, Text, codes, any, IsUnique, ok, err, arith,
}
use ozzb2b.Domain.{User, UserRole, Provider, ProviderStatus}
use ozzb2b.Chat.{
  Conversation, Message, ChatDb, list_conversations, get_conversation, newest, send_message,
}
use ozzb2b.Chat.Access.{IsLinked, is_ok, list_conversations-get_conversation}
use ozzb2b.Chat.Sending.{Sent, send_message_lem}
use ozzb2b.Errors.{error, http}
use ozzb2b.RateLimit.{Redis}
use ozzb2b.Tokens.{Jwt, JwtSettings, refused_token, ws_chat_payload}
use ozzb2b.Tokens.Purpose.{Accepts}
use ozzb2b.Chat.Routes.{ChatWorld, WsToken, WsSettings, issue_ws_token}
use ozzb2b.Chat.Socket.{Admitted, issue_ws_token_lem}
use ozzb2b.Chat.Paging.{newest-older}

abbrev firm : Provider
firm = record {
  id = 1;
  slug = codes "firm";
  display_name = codes "Firm";
  description = none;
  website = none;
  email = none;
  phone = none;
  address = none;
  logo_url = none;
  city_id = none;
  status = ProviderStatus.published;
  is_claimed = true;
  claimed_by_user_id = some 9;
}

abbrev ann : User
ann = record {
  id = 1;
  email = codes "ann@x.ru";
  password_hash = codes "p";
  display_name = none;
  role = UserRole.client;
  last_login_at = none;
}

abbrev talk : Conversation
talk = record {
  id = 4;
  user_id = 1;
  provider_id = 1;
  last_message_at = some 30;
  is_active = true;
  created_at = 5;
}

abbrev said_at : ℕ → Message
said_at t = record {
  id = t + 100;
  conversation_id = 4;
  sender_user_id = 1;
  body = codes "hi";
  created_at = t;
}

abbrev db : ChatDb
db = record {
  providers = firm ∷ [];
  conversations = talk ∷ record talk { id = 5; user_id = 2 } ∷ [];
  messages = said_at 20 ∷ said_at 30 ∷ said_at 10 ∷ [];
  published = [];
}

db-IsLinked : IsLinked db
unfolding any ozzb2b.Shared.find
db-IsLinked = record {
  conversation_ids = (refl, (refl, tt));
  provider_ids = (refl, tt);
  linked = (refl, (refl, tt));
}

list_conversations-get_conversation_example :
    any (λ (c : Conversation). c.id == 5) (list_conversations ann db)
    ≡ is_ok (get_conversation ann 5 db).0
list_conversations-get_conversation_example =
    list_conversations-get_conversation ann 5 db db-IsLinked

send_message_lem_example :
    ((send_message (λ m. true) ann 4 (codes " hello ") 200 40 db).1 ≡ db)
    ⊎ Sent
        (λ m. true)
        ann
        4
        (codes " hello ")
        200
        40
        db
        (send_message (λ m. true) ann 4 (codes " hello ") 200 40 db).1
send_message_lem_example = send_message_lem (λ m. true) ann 4 (codes " hello ") 200 40 db

ids_differ : IsUnique (λ (m : Message). m.id) db.messages
unfolding any
ids_differ = (refl, (refl, (refl, tt)))

times_differ : IsUnique (λ (m : Message). m.created_at) db.messages
unfolding any
times_differ = (refl, (refl, (refl, tt)))

first_page : newest db 4 2 none ≡ said_at 30 ∷ said_at 20 ∷ []
unfolding newest ozzb2b.Shared.sort_by ozzb2b.Shared.select ozzb2b.Chat.is_before
    ozzb2b.Shared.insert_by
first_page = refl

newest-older_example : newest db 4 (2 + 5) none ≡ newest db 4 2 none ++ newest db 4 5 (some 120)
newest-older_example =
    newest-older db 4 2 5 (said_at 30) (said_at 20 ∷ []) ids_differ times_differ first_page

-- a limiter that is off, and a stand-in for PyJWT with the one token
abbrev no_limits : WsSettings
no_limits = record {
  limits = record {
    rate_limit_enabled = false;
    rate_limit_window_seconds = 60;
    trusted_proxy_count = 0;
  };
  rate_limit_ws_token_max = 30;
  is_production = true;
}

abbrev counter : Redis ℕ
counter = record {
  incr = λ key s. (ok s, s);
  expire = λ key w s. (ok tt, s);
  ttl = λ key s. (ok none, s);
}

abbrev jwt_cfg : JwtSettings
jwt_cfg = record {
  jwt_secret = codes "s";
  jwt_algorithm = codes "HS256";
  jwt_issuer = codes "api";
  jwt_audience_api = codes "web";
  jwt_audience_ws_chat = codes "chat";
  jwt_leeway_seconds = 10;
  jwt_access_ttl_seconds = 900;
}

abbrev id_text : ℕ → Text
id_text n = n ∷ []

abbrev idle : Jwt
idle = record {
  numeric_date = λ t. t / 1000000;
  encode = λ p s a. [];
  decode = λ t s a v now. err (refused_token "none");
}

abbrev single : Jwt
single = record {
  numeric_date = λ t. t / 1000000;
  encode = λ p s a. codes "t";
  decode = λ t s a v now.
      ok (ws_chat_payload idle jwt_cfg (id_text 1) (id_text 4) (codes "j") 100500000 100500001);
}

abbrev world : ChatWorld ℕ ℕ
world = record {
  db = db;
  limiter = 0;
  events = record { net = 0; calls = 0; n_ok = 0; n_error = 0 };
}

abbrev handed : WsToken
handed = record {
  token = codes "t";
  expires_at = 220500000;
  ws_url = codes "wss://api.ozzb2b.com/chat/ws?token=t";
}

handed_out :
    (issue_ws_token counter single jwt_cfg no_limits id_text [] none ann 4
      (codes "j")
      100500000
      100500001
      world).0
    ≡ ok handed
unfolding issue_ws_token ozzb2b.Chat.Routes.limit_ws ozzb2b.RateLimit.enforce_rate_limit
    get_conversation ozzb2b.Shared.select ozzb2b.Chat.peer_of ozzb2b.Shared.find
    ozzb2b.Chat.can_access ozzb2b.Chat.Routes.ws_token ozzb2b.Tokens.create_ws_chat_token
    ozzb2b.Chat.Routes.ws_url_for
handed_out = refl

refused_to_bob :
    (issue_ws_token counter single jwt_cfg no_limits id_text [] none
      (record ann { id = 2 })
      4
      (codes "j")
      100500000
      100500001
      world).0
    ≡ err (error (http 403) "access denied")
unfolding issue_ws_token ozzb2b.Chat.Routes.limit_ws ozzb2b.RateLimit.enforce_rate_limit
    get_conversation ozzb2b.Shared.select ozzb2b.Chat.peer_of ozzb2b.Shared.find
    ozzb2b.Chat.can_access ozzb2b.Shared.option_beq ozzb2b.Chat.chat_answer
refused_to_bob = refl

single-Accepts :
    Accepts single jwt_cfg
      (ws_chat_payload single jwt_cfg (id_text 1) (id_text 4) (codes "j") 100500000 100500001)
      220
      100
unfolding ws_chat_payload
single-Accepts v now a b c d = refl

issue_ws_token_lem_example :
    Admitted counter single jwt_cfg no_limits id_text [] none ann 4
      (codes "j")
      100500000
      100500001
      world
      handed
      220999999
issue_ws_token_lem_example =
    issue_ws_token_lem counter single jwt_cfg no_limits id_text [] none ann 4 (codes "j") 100500000
      100500001 world handed 220999999 handed_out single-Accepts (omega arith) (omega arith)
      (omega arith, omega arith)
