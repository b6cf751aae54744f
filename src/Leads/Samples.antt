-- ===== src/Leads/Samples.antt =====
-- Small tables and settings that the tests of the lead services run on.
use ozzb2b.Shared.{
  refl, Bool, true, false, none, some, [], ◌∷◌, ◌++◌, nat_eq, text_eq, Text, codes, any,
}
use ozzb2b.Domain.{Provider, ProviderStatus}
use ozzb2b.Mailer.{Dialogue, Smtp}
use ozzb2b.Leads.Data.{Lead, LeadStatus, OutreachMessage, OutreachStatus, LeadsDb, LeadSettings}
use ozzb2b.Leads.Create.{LeadInput}
use ozzb2b.Leads.Outreach.Rows.{UniqueIds}

abbrev pub cfg : LeadSettings
cfg = record {
  jwt_secret = codes "k";
  lead_min_fill_seconds = 3;
  lead_form_token_ttl_seconds = 3600;
  lead_max_drafts = 1;
  public_site_url = codes "https://site";
  admin_notify_email = codes "admin@x.ru";
  mail = record { mail_enabled = true; mail_reply_to = codes "reply@x.ru" };
  hmac_sha256 = λ k s. k ++ s;
  urlencode = λ ps. codes "query";
}

abbrev pub smtp : Smtp
smtp taken mail = Dialogue.accepted

abbrev pub name_le : Text → Text → Bool
name_le a b = true

abbrev pub it_firm : Provider
it_firm = record {
  id = 1;
  slug = codes "it-firm";
  display_name = codes "IT";
  description = none;
  website = none;
  email = some (codes "it@x.ru");
  phone = none;
  address = none;
  logo_url = none;
  city_id = some 2;
  status = ProviderStatus.published;
  is_claimed = false;
  claimed_by_user_id = none;
}

abbrev pub claimed_firm : Provider
claimed_firm = record it_firm {
  id = 2;
  slug = codes "claimed";
  email = some (codes "claimed@x.ru");
  is_claimed = true;
}

abbrev pub lead : Lead
lead = record {
  id = 1;
  category_id = some 5;
  city_id = some 2;
  description = codes "need a site";
  budget = none;
  contact_name = codes "Ann";
  contact_email = codes "ann@x.ru";
  contact_phone = none;
  company_name = none;
  consent_at = 100;
  status = LeadStatus.new;
  source_ip = none;
  user_agent = none;
  admin_note = none;
}

abbrev pub message : OutreachMessage
message = record {
  id = 1;
  lead_id = 1;
  provider_id = 1;
  to_email = codes "it@x.ru";
  subject = codes "hello";
  body = codes "text";
  status = OutreachStatus.draft;
  sent_at = none;
  error = none;
}

abbrev pub sent_message : OutreachMessage
sent_message = record message {
  id = 2;
  provider_id = 2;
  status = OutreachStatus.sent;
  sent_at = some 90;
}

abbrev pub db : LeadsDb
db = record {
  categories = record { id = 5; parent_id = none; slug = codes "it"; name = codes "IT" } ∷ [];
  cities = record { id = 2; name = codes "Omsk" } ∷ [];
  providers = it_firm ∷ claimed_firm ∷ [];
  provider_categories = (1, 5) ∷ (2, 5) ∷ [];
  leads = lead ∷ [];
  outreach = message ∷ sent_message ∷ [];
  suppressions = [];
  delivered = [];
}

pub db-UniqueIds : UniqueIds db
unfolding any
db-UniqueIds = (refl, (refl, tt))

abbrev pub input : LeadInput
input = record {
  category_slug = codes "it";
  city_id = some 2;
  description = codes "нужен сайт";
  budget = none;
  contact_name = codes "Ann";
  contact_email = codes "Ann@x.ru";
  contact_phone = none;
  company_name = none;
  source_ip = none;
  user_agent = none;
}
