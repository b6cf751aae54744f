-- ===== src/Mailer.antt =====
-- E-mails and their delivery: apps/api/src/ozzb2b_api/services/mailer.py.
use ozzb2b.Shared.{
  ℕ, Bool, false, not, ◌&&◌, ◌||◌, Option, List, [], ◌∷◌, leb, ◌==◌, nat_eq, if◌then◌else◌, Text,
  codes, ◌++◌, is_truthy, or_empty,
}

pub record OutgoingMail : Type 0 where
  pub to : Text
  pub subject : Text
  pub body : Text
  pub reply_to : Option Text
  pub list_unsubscribe : Option Text

pub record MailSettings : Type 0 where
  pub mail_enabled : Bool
  pub mail_reply_to : Text

-- how the dialogue with the mail server ends: it took the mail; it raised an error and did not take it;
-- or it took the mail and raised an error after that, at the QUIT that leaves `with smtp` or at a timeout
pub data Dialogue : Type 0 where
  accepted : Dialogue
  refused : Text → Dialogue
  broken_off : Text → Dialogue

-- the mail server: what it has taken so far and the next mail give the end of the dialogue
abbrev pub Smtp : Type 0
Smtp = List OutgoingMail → OutgoingMail → Dialogue

-- how `send_mail` ends: returned, raised MailDeliveryError with a text, or raised ValueError
pub data SendOutcome : Type 0 where
  sent : SendOutcome
  undelivered : Text → SendOutcome
  malformed : SendOutcome

-- the line boundaries of `str.splitlines`
abbrev pub is_break : ℕ → Bool
is_break c =
    (leb 10 c && leb c 13)
    || ((leb 28 c && leb c 30) || (c == 0x85 || (leb 0x2028 c && leb c 0x2029)))

-- what follows a boundary, `\r\n` being one
abbrev pub after_break : ℕ → Text → Text
after_break c [] = []
after_break c (d ∷ s) = if c == 13 && d == 10 then s else d ∷ s

-- `len(value.splitlines()) > 1`: EmailMessage raises ValueError for such a header
unfoldable pub is_multi_line : Text → Bool
is_multi_line [] = false
is_multi_line (c ∷ s) =
    let rest = is_multi_line s in if is_break c then is_truthy (after_break c s) else rest

-- `x or y` for an optional text and a text
abbrev pub text_or : Option Text → Text → Text
text_or o d = if is_truthy (or_empty o) then or_empty o else d

-- build_message: the headers that the mail sets
unfoldable pub build_refuses : MailSettings → OutgoingMail → Bool
build_refuses cfg mail =
    is_multi_line mail.to
    || (is_multi_line mail.subject
        || (is_multi_line (text_or mail.reply_to cfg.mail_reply_to)
            || is_multi_line (or_empty mail.list_unsubscribe)))

-- The mails taken by the server, newest first, come back with the outcome.
unfoldable pub send_mail :
    MailSettings → Smtp → OutgoingMail → List OutgoingMail → SendOutcome × List OutgoingMail
send_mail cfg smtp mail taken =
    if build_refuses cfg mail
    then (malformed, taken)
    else if not cfg.mail_enabled
    then (sent, taken)
    else (elim (smtp taken mail) [
      | accepted ↦ (sent, mail ∷ taken)
      | refused reason ↦ (undelivered (codes "mail delivery failed: " ++ reason), taken)
      | broken_off reason ↦ (undelivered (codes "mail delivery failed: " ++ reason), mail ∷ taken)
    ])
