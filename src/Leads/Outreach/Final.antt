-- ===== src/Leads/Outreach/Final.antt =====
-- A message that was sent is final: no operation changes or removes its row.
use ozzb2b.Shared.{
  ℕ, ◌≡◌, ◌≢◌, Bool, true, false, not, Option, some, ◌==◌, nat_eq, eq_iff, Text, find,
  delete-IsUnique, find-delete_other, Exec, ok, guard, bind-holds, check-eq-ok, normalize, ◌∙◌,
  ◌>>=◌, ◌>>◌, arith, is_truthy, any, ◌&&◌, text_eq,
}
use ozzb2b.Errors.{Error, error, conflict, validation, outreach_not_editable, recipient_suppressed}
use ozzb2b.Mailer.{Smtp, SendOutcome}
use ozzb2b.Leads.Data.{
  LeadsDb, LeadSettings, LeadStatus, OutreachMessage, OutreachStatus, add_message,
  is_editable_status, is_sent, unsubscribe_token,
}
use ozzb2b.Leads.Create.{new_draft}
use ozzb2b.Leads.Outreach.{
  get_lead, get_outreach, ensure_editable, flush_outreach, is_suppressed, provider_by, update_lead,
  with_to_email, with_subject, with_body, update_outreach, skip_outreach, delete_outreach,
  add_draft, send_row, hand_over, after_sending, send_outreach, unsubscribe,
}
use ozzb2b.Leads.Outreach.Rows.{
  has_id, UniqueIds, find-flush_other, flush-UniqueIds, get_outreach-eq-ok, add_message-UniqueIds,
  find-add_message,
}

-- The row with id `k` is `m`, and ids are unique.
pub record Stands (k : ℕ) (m : OutreachMessage) (db : LeadsDb) : Type 0 where
  pub unique : UniqueIds db
  pub found : find (has_id k) db.outreach ≡ some m

module _ (k : ℕ) (m : OutreachMessage) (final : is_sent m.status ≡ true) where
  -- a row that a query returns and that is not sent is another row
  other_row :
      (id : ℕ) (db : LeadsDb) {n : OutreachMessage}
      → Stands k m db
      → (get_outreach id db).0 ≡ ok n
      → is_sent n.status ≡ false
      → n.id ≢ k
  other_row id db {n} s got unsent same =
      let (e, i) = get_outreach-eq-ok id db s.unique got in cc (e, i, same, s.found, final, unsent)

  editable_unsent :
      (n : OutreachMessage) → is_editable_status n.status ≡ true → is_sent n.status ≡ false
  editable_unsent n h = ground arith

  flush-Stands :
      (n : OutreachMessage) (db : LeadsDb)
      → n.id ≢ k
      → Stands k m db
      → Stands k m (flush_outreach n db).1
  flush-Stands n db other s = record {
    unique = flush-UniqueIds n db s.unique;
    found = rw (find-flush_other k n db other) s.found;
  }

  -- an operation on one editable row keeps the sent one, if its last part keeps it
  edit-Stands :
      {B : Type 0} (id : ℕ) (rest : OutreachMessage → Exec LeadsDb Error B) (db : LeadsDb)
      → ((n : OutreachMessage) → n.id ≢ k → Stands k m (rest n db).1)
      → Stands k m db
      → Stands k m ((get_outreach id >>= λ n. ensure_editable n >> rest n) db).1
  unfolding ensure_editable get_outreach
  edit-Stands id rest db keep s =
      bind-holds (Stands k m) (get_outreach id) (λ n. ensure_editable n >> rest n) db s
        λ n got.
          bind-holds (Stands k m) (ensure_editable n) (λ _. rest n) db s
            λ _ passed. keep n (other_row id db s got (editable_unsent n (check-eq-ok _ _ passed)))

  -- the new values leave the id alone
  rename :
      (to_email subject body : Option Text) (n : OutreachMessage)
      → n.id ≡ (with_body body (with_subject subject (with_to_email to_email n))).id
  unfolding with_to_email with_subject with_body
  rename to_email subject body n = ground arith

  pub update_outreach-Stands :
      (id : ℕ) (to_email subject body : Option Text) (db : LeadsDb)
      → Stands k m db
      → Stands k m (update_outreach id to_email subject body db).1
  unfolding update_outreach
  update_outreach-Stands id to_email subject body db s =
      edit-Stands id _ db
        (λ n other.
          flush-Stands (with_body body (with_subject subject (with_to_email to_email n))) db
            (kept_id n other) s)
        s
    where
      kept_id :
          (n : OutreachMessage)
          → n.id ≢ k
          → (with_body body (with_subject subject (with_to_email to_email n))).id ≢ k
      kept_id n other e = other (rename to_email subject body n ∙ e)

  pub skip_outreach-Stands :
      (id : ℕ) (db : LeadsDb) → Stands k m db → Stands k m (skip_outreach id db).1
  unfolding skip_outreach
  skip_outreach-Stands id db s =
      edit-Stands id _ db
        (λ n other. flush-Stands (record n { status = OutreachStatus.skipped }) db other s) s

  pub delete_outreach-Stands :
      (id : ℕ) (db : LeadsDb) → Stands k m db → Stands k m (delete_outreach id db).1
  unfolding delete_outreach get_outreach
  delete_outreach-Stands id db s = bind-holds (Stands k m) (get_outreach id) _ db s λ n got.
      bind-holds (Stands k m)
        (guard (not (is_sent n.status))
          (error outreach_not_editable "outreach message already sent"))
        _ db s
        λ _ passed. record {
          unique =
              delete-IsUnique (λ (o : OutreachMessage). o.id) (λ o. o.id == n.id) db.outreach
                s.unique;
          found =
              rw
                (find-delete_other (λ o. o.id == n.id) (has_id k) db.outreach
                  (apart n (other_row id db s got (ground (arith, check-eq-ok _ _ passed)))))
                s.found;
        }
    where
      apart :
          (n : OutreachMessage)
          → n.id ≢ k
          → (y : OutreachMessage) → (y.id == n.id) ≡ true
          → has_id k y ≡ false
      apart n other y h = ground (arith, eq_iff y.id n.id, eq_iff y.id k)

  pub update_lead-Stands :
      (id : ℕ) (status : Option LeadStatus) (note : Option Text) (db : LeadsDb)
      → Stands k m db
      → Stands k m (update_lead id status note db).1
  unfolding update_lead get_lead
  update_lead-Stands id status _ db s =
      bind-holds (Stands k m) (get_lead id) _ db s
        λ l got. record { unique = s.unique; found = s.found }

  add_message-Stands :
      (n : OutreachMessage) (db : LeadsDb) → Stands k m db → Stands k m (add_message n db).1
  add_message-Stands n db s = record {
    unique = add_message-UniqueIds n db s.unique;
    found = find-add_message k n m db s.found;
  }

  pub unsubscribe-Stands :
      (cfg : LeadSettings) (email token : Text) (db : LeadsDb)
      → Stands k m db
      → Stands k m (unsubscribe cfg email token db).1
  unfolding unsubscribe
  unsubscribe-Stands cfg email token db s =
      bind-holds (Stands k m)
        (guard (token == unsubscribe_token cfg (normalize email))
          (error validation "invalid unsubscribe link"))
        _ db s λ _ _. record { unique = s.unique; found = s.found }

  pub add_draft-Stands :
      (cfg : LeadSettings) (name_le : Text → Text → Bool) (lead_id : ℕ) (slug : Text) (id : ℕ)
      (db : LeadsDb)
      → Stands k m db
      → Stands k m (add_draft cfg name_le lead_id slug id db).1
  unfolding add_draft get_lead provider_by
  add_draft-Stands cfg name_le lead_id slug id db s =
      bind-holds (Stands k m) (get_lead lead_id) _ db s λ lead _.
        bind-holds (Stands k m) (provider_by slug) _ db s λ p _.
          bind-holds (Stands k m)
            (guard (not (any (λ n. n.lead_id == lead.id && n.provider_id == p.id) db.outreach))
              (error conflict "draft for this provider already exists"))
            _ db s
            λ _ _.
              bind-holds (Stands k m) (add_message (new_draft cfg name_le db lead p id)) _ db
                (add_message-Stands _ db s) λ _ _. add_message-Stands _ db s

  hand_over-Stands :
      (cfg : LeadSettings) (smtp : Smtp) (n : OutreachMessage) (db : LeadsDb)
      → Stands k m db
      → Stands k m (hand_over cfg smtp n db).1
  unfolding hand_over
  hand_over-Stands cfg smtp n db s = record { unique = s.unique; found = s.found }

  after_sending-Stands :
      (cfg : LeadSettings) (smtp : Smtp) (n : OutreachMessage) (now : ℕ) (o : SendOutcome)
      (db : LeadsDb)
      → n.id ≢ k
      → Stands k m db
      → Stands k m (after_sending cfg smtp n now o db).1
  unfolding after_sending
  after_sending-Stands cfg smtp n now SendOutcome.sent db other s = flush-Stands _ db other s
  after_sending-Stands cfg smtp n now (SendOutcome.undelivered reason) db other s =
      flush-Stands _ db other s
  after_sending-Stands cfg smtp n now SendOutcome.malformed db other s = s

  pub send_outreach-Stands :
      (cfg : LeadSettings) (smtp : Smtp) (id now : ℕ) (db : LeadsDb)
      → Stands k m db
      → Stands k m (send_outreach cfg smtp id now db).1
  unfolding send_outreach send_row
  send_outreach-Stands cfg smtp id now db s =
      edit-Stands id _ db
        (λ n other.
          bind-holds (Stands k m)
            (guard (is_truthy n.to_email) (error validation "recipient e-mail is empty")) _ db s
            λ _ _.
              bind-holds (Stands k m)
                (guard (not (is_suppressed n.to_email db))
                  (error recipient_suppressed "recipient unsubscribed"))
                _ db s
                λ _ _.
                  bind-holds (Stands k m) (hand_over cfg smtp n) _ db
                    (hand_over-Stands cfg smtp n db s)
                    λ o _.
                      after_sending-Stands cfg smtp n now o _ other
                        (hand_over-Stands cfg smtp n db s))
        s
