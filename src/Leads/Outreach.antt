-- ===== src/Leads/Outreach.antt =====
-- The admin's operations on leads and messages, and `unsubscribe`:
-- apps/api/src/ozzb2b_api/services/leads.py, with bulk_outreach of routes/leads.py.
pub mod Rows
pub mod Final
pub mod Safety
use ozzb2b.Shared.{
  ℕ, Bool, true, false, not, ◌&&◌, ◌||◌, Option, none, some, List, [], ◌∷◌, ◌++◌, ◌==◌, nat_eq,
  text_eq, if◌then◌else◌, Text, normalize, strip, or_empty, or_none, is_truthy, prefix, is_none,
  any, contains, find, select, update, delete, map, Exec, Result, ok, err, ◌>>=◌, ◌>>◌, pure, raise,
  lift, gets, guard, or_raise, modify, one_or_raise, scalar_one_or_none,
}
use ozzb2b.Errors.{
  Error, error, multiple, not_found, conflict, validation, outreach_not_editable, value_error,
  recipient_suppressed, is_domain_error,
}
use ozzb2b.Domain.{Provider}
use ozzb2b.Mailer.{OutgoingMail, MailSettings, Smtp, SendOutcome, send_mail}
use ozzb2b.Leads.Data.{
  Lead, LeadStatus, OutreachMessage, OutreachStatus, LeadsDb, LeadSettings, add_message,
  is_editable_status, is_sent, unsubscribe_token,
}
use ozzb2b.Leads.Draft.{render_draft, unsubscribe_url}
use ozzb2b.Leads.Create.{new_draft}

-- a query for one row by its primary key, or the error for a row that is not there
pub get_lead : ℕ → Exec LeadsDb Error Lead
get_lead id db = (
  one_or_raise multiple (error not_found "lead not found")
      (select (λ (l : Lead). l.id == id) db.leads),
  db,
)

pub get_outreach : ℕ → Exec LeadsDb Error OutreachMessage
get_outreach id db = (
  one_or_raise multiple (error not_found "outreach message not found")
      (select (λ (m : OutreachMessage). m.id == id) db.outreach),
  db,
)

pub provider_by : Text → Exec LeadsDb Error Provider
provider_by slug db = (
  one_or_raise multiple (error not_found "provider not found")
      (select (λ (p : Provider). p.slug == slug) db.providers),
  db,
)

pub ensure_editable : OutreachMessage → Exec LeadsDb Error Unit
ensure_editable m =
    guard (is_editable_status m.status)
      (error outreach_not_editable "outreach message already processed")

-- the flush of a changed row
pub flush_outreach : OutreachMessage → Exec LeadsDb Error OutreachMessage
flush_outreach m db =
    (ok m, record db { outreach = update (λ n. n.id == m.id) (λ n. m) db.outreach })

unfoldable pub is_suppressed : Text → LeadsDb → Bool
is_suppressed email db = contains db.suppressions (normalize email)

-- `if status is not None: …`, `if note is not None: …`
pub with_status : Option LeadStatus → Lead → Lead
with_status none l = l
with_status (some s) l = record l { status = s }

pub with_note : Option Text → Lead → Lead
with_note none l = l
with_note (some n) l = record l { admin_note = or_none (strip n) }

pub update_lead : ℕ → Option LeadStatus → Option Text → Exec LeadsDb Error Lead
update_lead id status note = do
  lead ← get_lead id
  modify (λ db. record db {
    leads =
        update (λ (l : Lead). l.id == lead.id) (λ l. with_note note (with_status status lead))
          db.leads;
  })
  pure (with_note note (with_status status lead))

pub with_to_email : Option Text → OutreachMessage → OutreachMessage
with_to_email none m = m
with_to_email (some t) m = record m { to_email = normalize t }

pub with_subject : Option Text → OutreachMessage → OutreachMessage
with_subject none m = m
with_subject (some t) m = record m { subject = strip t }

pub with_body : Option Text → OutreachMessage → OutreachMessage
with_body none m = m
with_body (some t) m = record m { body = t }

pub update_outreach :
    ℕ → Option Text → Option Text → Option Text → Exec LeadsDb Error OutreachMessage
update_outreach id to_email subject body = do
  m ← get_outreach id
  ensure_editable m
  flush_outreach (with_body body (with_subject subject (with_to_email to_email m)))

pub skip_outreach : ℕ → Exec LeadsDb Error OutreachMessage
skip_outreach id = do
  m ← get_outreach id
  ensure_editable m
  flush_outreach (record m { status = OutreachStatus.skipped })

pub delete_outreach : ℕ → Exec LeadsDb Error Unit
delete_outreach id = do
  m ← get_outreach id
  guard (not (is_sent m.status)) (error outreach_not_editable "outreach message already sent")
  modify λ db. record db { outreach = delete (λ (n : OutreachMessage). n.id == m.id) db.outreach }

pub lead_outreach_ids : ℕ → LeadsDb → List ℕ
lead_outreach_ids lead_id db =
    map (λ (m : OutreachMessage). m.id)
      (select (λ (m : OutreachMessage). m.lead_id == lead_id) db.outreach)

module _ (cfg : LeadSettings) (name_le : Text → Text → Bool) where
  pub add_draft : ℕ → Text → ℕ → Exec LeadsDb Error OutreachMessage
  add_draft lead_id provider_slug id = do
    lead ← get_lead lead_id
    provider ← provider_by provider_slug
    taken ← gets (λ db.
        any (λ (m : OutreachMessage). m.lead_id == lead.id && m.provider_id == provider.id)
          db.outreach)
    guard (not taken) (error conflict "draft for this provider already exists")
    m ← gets (λ db. new_draft cfg name_le db lead provider id)
    add_message m
    pure m

-- the mail for a message
pub mail_of : LeadSettings → OutreachMessage → OutgoingMail
mail_of cfg m = record {
  to = m.to_email;
  subject = m.subject;
  body = m.body;
  reply_to = none;
  list_unsubscribe = some (unsubscribe_url cfg m.to_email);
}

module _ (cfg : LeadSettings) (smtp : Smtp) where
  -- `await mailer.send_mail(…)`: its outcome, with the mail on the server's side
  pub hand_over : OutreachMessage → Exec LeadsDb Error SendOutcome
  hand_over m db = (
    ok (send_mail cfg.mail smtp (mail_of cfg m) db.delivered).0,
    record db { delivered = (send_mail cfg.mail smtp (mail_of cfg m) db.delivered).1 },
  )

  -- the message as each outcome leaves it; a ValueError goes on to the caller
  pub after_sending : OutreachMessage → ℕ → SendOutcome → Exec LeadsDb Error OutreachMessage
  after_sending m now SendOutcome.sent =
      flush_outreach (record m { status = OutreachStatus.sent; sent_at = some now; error = none })
  after_sending m now (SendOutcome.undelivered reason) =
      flush_outreach
        (record m { status = OutreachStatus.failed; error = some (prefix 2000 reason) })
  after_sending m now SendOutcome.malformed =
      raise
        (error value_error "Header values may not contain linefeed or carriage return characters")

  -- the checks on a message and its sending
  pub send_row : OutreachMessage → ℕ → Exec LeadsDb Error OutreachMessage
  send_row m now = do
    ensure_editable m
    guard (is_truthy m.to_email) (error validation "recipient e-mail is empty")
    suppressed ← gets (is_suppressed m.to_email)
    guard (not suppressed) (error recipient_suppressed "recipient unsubscribed")
    outcome ← hand_over m
    after_sending m now outcome

  pub send_outreach : ℕ → ℕ → Exec LeadsDb Error OutreachMessage
  send_outreach id now = do m ← get_outreach id; send_row m now

unfoldable pub unsubscribe : LeadSettings → Text → Text → Exec LeadsDb Error Unit
unsubscribe cfg email token = do
  guard (token == unsubscribe_token cfg (normalize email))
      (error validation "invalid unsubscribe link")
  known ← gets (is_suppressed (normalize email))
  modify λ db. record db {
    suppressions = if known then db.suppressions else normalize email ∷ db.suppressions;
  }
