-- ===== src/Leads/Data.antt =====
-- The rows of db/models/lead.py, the tables that the lead services read and write, and the mails
-- that left: apps/api/src/ozzb2b_api/services/leads.py and db/models.
use ozzb2b.Shared.{
  ℕ, Bool, true, false, Option, List, ◌∷◌, ◌++◌, ◌==◌, nat_eq, text_eq, if◌then◌else◌, Text,
  is_truthy, or_empty, codes, normalize, ◌||◌, ◌&&◌, any, take, Exec, ok, err,
}
use ozzb2b.Errors.{Error, violation}
use ozzb2b.Domain.{Provider}
use ozzb2b.Mailer.{OutgoingMail, MailSettings}

pub data LeadStatus : Type 0 where
  new in_progress closed spam : LeadStatus

pub data OutreachStatus : Type 0 where
  draft sent skipped failed : OutreachStatus

pub record Category : Type 0 where
  pub id : ℕ
  pub parent_id : Option ℕ
  pub slug : Text
  pub name : Text

pub record City : Type 0 where
  pub id : ℕ
  pub name : Text

pub record Lead : Type 0 where
  pub id : ℕ
  pub category_id : Option ℕ
  pub city_id : Option ℕ
  pub description : Text
  pub budget : Option Text
  pub contact_name : Text
  pub contact_email : Text
  pub contact_phone : Option Text
  pub company_name : Option Text
  pub consent_at : ℕ
  pub status : LeadStatus
  pub source_ip : Option Text
  pub user_agent : Option Text
  pub admin_note : Option Text

pub record OutreachMessage : Type 0 where
  pub id : ℕ
  pub lead_id : ℕ
  pub provider_id : ℕ
  pub to_email : Text
  pub subject : Text
  pub body : Text
  pub status : OutreachStatus
  pub sent_at : Option ℕ
  pub error : Option Text

-- `delivered` is the mail server's side, newest first: no rollback takes it back.
pub record LeadsDb : Type 0 where
  pub categories : List Category
  pub cities : List City
  pub providers : List Provider
  pub provider_categories : List (ℕ × ℕ)
  pub leads : List Lead
  pub outreach : List OutreachMessage
  pub suppressions : List Text
  pub delivered : List OutgoingMail

-- config.py, as far as leads go, with the signing and quoting functions of Python's library
pub record LeadSettings : Type 0 where
  pub jwt_secret : Text
  pub lead_min_fill_seconds : ℕ
  pub lead_form_token_ttl_seconds : ℕ
  pub lead_max_drafts : ℕ
  pub public_site_url : Text
  pub admin_notify_email : Text
  pub mail : MailSettings
  pub hmac_sha256 : Text → Text → Text
  pub urlencode : List (Text × Text) → Text

-- What a rollback of the session leaves: the tables as they were, the mails where they went.
abbrev pub rollback : LeadsDb → LeadsDb → LeadsDb
rollback before after = record before { delivered = after.delivered }

abbrev pub is_editable_status : OutreachStatus → Bool
is_editable_status draft = true
is_editable_status failed = true
is_editable_status _ = false

abbrev pub is_sent : OutreachStatus → Bool
is_sent sent = true
is_sent _ = false

-- _sign
unfoldable pub sign : LeadSettings → Text → Text → Text
sign cfg purpose payload =
    take 32 (cfg.hmac_sha256 cfg.jwt_secret (purpose ++ codes ":" ++ payload))

-- unsubscribe_token
unfoldable pub unsubscribe_token : LeadSettings → Text → Text
unsubscribe_token cfg email = sign cfg (codes "unsubscribe") (normalize email)

-- INSERT of a message, under the primary key and uq_outreach_lead_provider
unfoldable pub add_message : OutreachMessage → Exec LeadsDb Error Unit
add_message m db =
    if any (λ n. n.id == m.id || (n.lead_id == m.lead_id && n.provider_id == m.provider_id))
      db.outreach
    then (err violation, db)
    else (ok tt, record db { outreach = m ∷ db.outreach })

abbrev pub text_set : Option Text → Bool
text_set o = is_truthy (or_empty o)
