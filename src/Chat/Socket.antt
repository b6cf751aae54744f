-- ===== src/Chat/Socket.antt =====
-- The tokens that routes/chat.py hands out for the chat's socket, and what the gateway reads from them.
use ozzb2b.Shared.{
  ℕ, ◌+◌, ◌*◌, ◌<◌, ◌≤◌, ◌≡◌, true, Option, some, List, [], ◌∷◌, ◌==◌, nat_eq, Text, select, find,
  arith, Result, ok, err, bind_returns, subst, Exec, pure, ◌>>=◌,
}
use ozzb2b.Errors.{Error}
use ozzb2b.Domain.{User, Provider}
use ozzb2b.RateLimit.{Redis}
use ozzb2b.Tokens.{
  Jwt, JwtSettings, one_second, ws_chat_payload, create_ws_chat_token, ws_chat_ttl_seconds,
  decode_ws_chat_token,
}
use ozzb2b.Tokens.Purpose.{
  whole_seconds, CutsOff, Accepts, decode_ws_chat_token-create_ws_chat_token,
}
use ozzb2b.Chat.{Conversation, ConversationWithPeer, can_access, get_conversation, chat_answer}
use ozzb2b.Chat.Sending.{get_conversation-eq-ok}
use ozzb2b.Chat.Routes.{
  ChatWorld, WsToken, WsSettings, on_error, service, limit_ws, ws_token, issue_ws_token,
}

on_error-eq-ok :
    {A : Type 0} (f : Error → Error) (r : Result Error A) {a : A} → on_error f r ≡ ok a → r ≡ ok a
on_error-eq-ok f (ok b) h = h
on_error-eq-ok f (err e) h = absurd cc

module _ {S N : Type 0} (redis : Redis S) (jwt : Jwt) (jwt_cfg : JwtSettings) (cfg : WsSettings)
    (str_of : ℕ → Text) (headers : List (Text × Text)) (host : Option Text) (user : User)
    (conversation_id : ℕ) (jti : Text) (now issued : ℕ) (w : ChatWorld S N) where
  abbrev pub issue : Result Error WsToken × ChatWorld S N
  issue =
      issue_ws_token redis jwt jwt_cfg cfg str_of headers host user conversation_id jti now issued w

  -- a conversation that the user may see, and a token that is read back as the user's for it
  pub record Admitted (t : WsToken) (later : ℕ) : Type 0 where
    pub conversation : Conversation
    pub provider : Provider
    pub listed :
        select (λ (c : Conversation). c.id == conversation_id) w.db.conversations
        ≡ conversation ∷ []
    pub peer :
        find (λ (p : Provider). p.id == conversation.provider_id) w.db.providers ≡ some provider
    pub allowed : can_access conversation user provider ≡ true
    pub bound :
        decode_ws_chat_token jwt jwt_cfg t.token later
        ≡ ok (record {
          user_id = str_of user.id;
          conversation_id = str_of conversation_id;
          exp = whole_seconds jwt t.expires_at;
          jti = jti;
        })
    pub cut : CutsOff jwt t.expires_at

  -- A token for the socket is handed out only to a user who may see the conversation, and it is
  -- read back as a token of that user for that conversation, with an expiry that is the answered one or
  -- earlier by less than a second, provided PyJWT accepts what it signed, for its audience and issuer,
  -- until the seconds written for its expiry have passed and from those written for its making on,
  -- both up to the leeway, and cuts off the part of a second of a datetime.
  pub issue_ws_token_lem :
      (t : WsToken) (later : ℕ)
      → issue.0 ≡ ok t
      → Accepts jwt jwt_cfg
          (ws_chat_payload jwt jwt_cfg (str_of user.id) (str_of conversation_id) jti now issued)
          (jwt.numeric_date (now + ws_chat_ttl_seconds * one_second))
          (jwt.numeric_date issued)
      → later
        < (jwt.numeric_date (now + ws_chat_ttl_seconds * one_second) + jwt_cfg.jwt_leeway_seconds)
          * one_second
      → whole_seconds jwt issued ≤ later + jwt_cfg.jwt_leeway_seconds * one_second
      → CutsOff jwt (now + ws_chat_ttl_seconds * one_second)
      → Admitted t later
  unfolding issue_ws_token limit_ws ws_token create_ws_chat_token
  issue_ws_token_lem t later h accepts before after cut =
      let made : WsToken = ws_token jwt jwt_cfg cfg str_of user conversation_id jti now issued in
      let look : Exec (ChatWorld S N) Error ConversationWithPeer =
        service chat_answer (get_conversation user conversation_id) in
      let (_, passed, rest) =
        bind_returns (limit_ws redis jwt jwt_cfg cfg str_of headers host user)
          (λ _ s. (look >>= (λ _. pure made)) s) w h in
      let (peer, got, rest') =
        bind_returns look (λ _. pure made)
          (limit_ws redis jwt jwt_cfg cfg str_of headers host user w).1 rest in
      let (listed, there, allowed) =
        get_conversation-eq-ok user conversation_id w.db
          (on_error-eq-ok chat_answer (get_conversation user conversation_id w.db).0 got) in
      let same : made ≡ t = ground (arith, rest') in
      subst (λ u. Admitted u later) same
        (record {
          conversation = peer.conversation;
          provider = peer.provider;
          listed = listed;
          peer = there;
          allowed = allowed;
          cut = cut;
          bound =
              decode_ws_chat_token-create_ws_chat_token jwt jwt_cfg (str_of user.id)
                (str_of conversation_id) jti now issued later accepts before after;
        })
