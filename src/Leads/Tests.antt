-- ===== src/Leads/Tests.antt =====
-- Runs of the lead services on small tables, and their theorems applied there.
use ozzb2b.Shared.{
  ℕ, ◌+◌, ◌*◌, min, ◌≡◌, ◌≤◌, refl, ◌⊎◌, ◌↔◌, inl, inr, Bool, true, false, Option, none, some, List,
  [], ◌∷◌, ◌++◌, ◌==◌, nat_eq, text_eq, eq_iff, Text, codes, normalize, any, all, is_truthy, count,
  find, contains, select, length, All, IsUnique, Result, Exec, ok, err, arith,
}
use ozzb2b.Domain.{Provider}
use ozzb2b.Leads.Data.{
  Lead, LeadStatus, OutreachMessage, OutreachStatus, LeadsDb, LeadSettings, sign, unsubscribe_token,
}
use ozzb2b.Leads.Form.{token_payload, issue_form_token, check_form_token, is_digits, int_of}
use ozzb2b.Leads.Form.RoundTrip.{check_form_token-issue_form_token, check_form_token-eq-ok}
use ozzb2b.Leads.Create.{LeadInput, new_lead, create_lead}
use ozzb2b.Leads.Create.Stored.{Added, create_lead-eq-ok}
use ozzb2b.Leads.Submit.{LeadForm, submit_request, Accepted, submit_request_lem}
use ozzb2b.Leads.Match.{match_providers}
use ozzb2b.Leads.Match.Addressees.{IsAddressee, IsOrdered}
use ozzb2b.Leads.Match.Laws.{match_providers_laws, eligible}
use ozzb2b.Leads.Outreach.{send_outreach, unsubscribe, is_suppressed}
use ozzb2b.Leads.Outreach.Rows.{has_id}
use ozzb2b.Leads.Outreach.Final.{Stands}
use ozzb2b.Leads.Outreach.Safety.{unsubscribe-send_outreach}
use ozzb2b.Leads.Admin.{Action, Request, serve}
use ozzb2b.Leads.Admin.Final.{serve-Stands}
use ozzb2b.Leads.Samples.{cfg, smtp, name_le, lead, message, sent_message, db, db-UniqueIds, input}

-- the form token

nonce_plain : any (λ c. c == b'.') (codes "abc") ≡ false
unfolding any
nonce_plain = refl

signed : is_truthy (sign cfg (codes "lead-form") (token_payload cfg 100 (codes "abc"))) ≡ true
unfolding sign token_payload
signed = refl

check_form_token-issue_form_token_example :
    check_form_token cfg (issue_form_token cfg 100000000 (codes "abc")) 110000000 ≡ ok tt
check_form_token-issue_form_token_example =
    check_form_token-issue_form_token cfg 100000000 110000000 (codes "abc") refl nonce_plain signed
      (omega arith) (omega arith)

abbrev token : Text
token = issue_form_token cfg 100000000 (codes "abc")

check_form_token-eq-ok_example :
    (issued_raw : Text) × (nonce : Text) × (token
      ≡ issued_raw
        ++ b'.' ∷ nonce
        ++ b'.' ∷ sign cfg (codes "lead-form") (issued_raw ++ b'.' ∷ nonce))
    × (is_digits issued_raw ≡ true)
    × ((int_of issued_raw + 3) * 1000000 ≤ 110000000)
    × (110000000 ≤ (int_of issued_raw + 3600) * 1000000)
check_form_token-eq-ok_example = check_form_token-eq-ok cfg token 110000000 (
    check_form_token-issue_form_token cfg 100000000 110000000 (codes "abc") refl nonce_plain signed
      (omega arith) (omega arith))

-- the matching

match_providers_laws_example :
    All (IsAddressee lead db) (match_providers name_le lead db 1)
    × IsOrdered lead (match_providers name_le lead db 1)
    × ((test : Provider → Bool) × ((p : Provider) → (test p ≡ true) ↔ IsAddressee lead db p)
        × (length (match_providers name_le lead db 1) ≡ min 1 (count test db.providers)))
match_providers_laws_example = match_providers_laws name_le lead db 1

-- sending

abbrev suppressed_db : LeadsDb
suppressed_db = record db { suppressions = codes "it@x.ru" ∷ [] }

unsubscription_runs :
    unsubscribe cfg (codes "IT@x.ru") (unsubscribe_token cfg (codes "it@x.ru")) db
    ≡ (ok tt, suppressed_db)
unfolding unsubscribe_token unsubscribe ozzb2b.Shared.list_beq sign ozzb2b.Shared.lower
    ozzb2b.Shared.strip ozzb2b.Shared.rstrip ozzb2b.Shared.lstrip ozzb2b.Shared.is_space
    ozzb2b.Shared.lower_char is_suppressed contains
unsubscription_runs = refl

message_there : find (has_id 1) db.outreach ≡ some message
unfolding find
message_there = refl

same_address : normalize message.to_email ≡ normalize (codes "IT@x.ru")
unfolding ozzb2b.Shared.strip ozzb2b.Shared.lstrip ozzb2b.Shared.is_space ozzb2b.Shared.rstrip
    ozzb2b.Shared.lower ozzb2b.Shared.lower_char
same_address = refl

unsubscribe-send_outreach_example : (send_outreach cfg smtp 1 500 suppressed_db).1.delivered ≡ []
unsubscribe-send_outreach_example =
    unsubscribe-send_outreach cfg smtp (codes "IT@x.ru") (unsubscribe_token cfg (codes "it@x.ru"))
      db 1 500 message db-UniqueIds unsubscription_runs message_there same_address

sent_there : find (has_id 2) db.outreach ≡ some sent_message
unfolding find
sent_there = refl

abbrev requests : List (Request × ℕ)
requests =
    (Request.sends 2, 500)
    ∷ (Request.bulk 1 Action.delete (1 ∷ 2 ∷ 1 ∷ []), 501)
    ∷ (Request.updates 2 none (some (codes "other")) none, 502)
    ∷ []

serve-Stands_example : Stands 2 sent_message (serve cfg name_le smtp db requests)
serve-Stands_example =
    serve-Stands cfg name_le smtp 2 sent_message refl db requests
      (record { unique = db-UniqueIds; found = sent_there })

-- storing a lead

abbrev stored_lead : Lead
stored_lead =
    new_lead 9 100 (record { id = 5; parent_id = none; slug = codes "it"; name = codes "IT" })
      (some (record { id = 2; name = codes "Omsk" })) input

abbrev stored_db : LeadsDb
stored_db = (create_lead cfg name_le 9 (λ k. k + 20) 100 input db).1

creation_runs :
    create_lead cfg name_le 9 (λ k. k + 20) 100 input db ≡ (ok (stored_lead, 1), stored_db)
unfolding create_lead select ozzb2b.Shared.list_beq ozzb2b.Leads.Create.store_drafts
    ozzb2b.Leads.Create.add_drafts match_providers ozzb2b.Leads.Match.match_in new_lead
    ozzb2b.Leads.Match.order_by ozzb2b.Leads.Match.is_eligible ozzb2b.Leads.Match.in_category any
    contains ozzb2b.Leads.Match.place ozzb2b.Leads.Match.precedes ozzb2b.Leads.Match.rank
    ozzb2b.Shared.option_beq ozzb2b.Leads.Create.city_of ozzb2b.Leads.Create.new_draft
    ozzb2b.Leads.Data.add_message find ozzb2b.Shared.is_space ozzb2b.Shared.lower
    ozzb2b.Shared.lower_char ozzb2b.Shared.lstrip ozzb2b.Shared.rstrip ozzb2b.Shared.strip
creation_runs = refl

create_lead-eq-ok_example :
    Added cfg name_le stored_lead 1 (record db { leads = stored_lead ∷ db.leads }) stored_db
    × (1 ≡ min 1 (count (eligible name_le stored_lead db stored_lead.category_id) db.providers))
unfolding count eligible
create_lead-eq-ok_example = create_lead-eq-ok cfg name_le 9 (λ k. k + 20) 100 input db creation_runs

abbrev form : LeadForm
form = record { website = none; consent = true; form_token = token; input = input }

submit_request_lem_example :
    (((submit_request cfg name_le form 9 (λ k. k + 20) 110 110000000 db).1.leads ≡ db.leads)
      × ((submit_request cfg name_le form 9 (λ k. k + 20) 110 110000000 db).1.outreach
          ≡ db.outreach))
    ⊎ Accepted cfg name_le form 9
        (λ k. k + 20)
        110
        110000000
        db
        (submit_request cfg name_le form 9 (λ k. k + 20) 110 110000000 db).1
submit_request_lem_example = submit_request_lem cfg name_le form 9 (λ k. k + 20) 110 110000000 db
