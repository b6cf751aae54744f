-- ===== src/Leads/Submit.antt =====
-- The handler of POST /leads behind its rate limit: create_lead in
-- apps/api/src/ozzb2b_api/routes/leads.py, in the transaction of its request. The mails that are
-- sent after the answer are left out.
use ozzb2b.Shared.{
  ℕ, ◌≡◌, refl, ap, ◌⊎◌, inl, inr, Bool, true, false, Option, none, some, if◌then◌else◌, Text,
  is_truthy, or_empty, Exec, ok, ◌>>=◌, ◌>>◌, pure, lift, guard, get_db, bind-eq-ok, check-eq-ok,
  Result-cases, Bool-cases, arith,
}
use ozzb2b.Errors.{Error, error, validation}
use ozzb2b.Leads.Data.{Lead, LeadSettings, LeadsDb, rollback}
use ozzb2b.Leads.Form.{check_form_token, check_content}
use ozzb2b.Leads.Create.{LeadInput, create_lead}

-- LeadCreateRequest: `website` is the honeypot
pub record LeadForm : Type 0 where
  pub website : Option Text
  pub consent : Bool
  pub form_token : Text
  pub input : LeadInput

module _ (cfg : LeadSettings) (name_le : Text → Text → Bool) where
  -- `none` is the answer to a bot, which looks like a success
  pub submit : LeadForm → ℕ → (ℕ → ℕ) → ℕ → ℕ → Exec LeadsDb Error (Option (Lead × ℕ))
  submit form lead_id id now now_us db =
      if is_truthy (or_empty form.website)
      then (ok none, db)
      else (do
        guard form.consent (error validation "consent required")
        lift (check_form_token cfg form.form_token now_us)
        lift (check_content form.input.description)
        created ← create_lead cfg name_le lead_id id now form.input
        pure (some created))
          db

  pub submit_request : LeadForm → ℕ → (ℕ → ℕ) → ℕ → ℕ → Exec LeadsDb Error (Option (Lead × ℕ))
  submit_request form lead_id id now now_us = get_db rollback (submit form lead_id id now now_us)

  -- what a submission that stores a lead has passed and done
  pub record Accepted (form : LeadForm) (lead_id : ℕ) (id : ℕ → ℕ) (now now_us : ℕ)
      (db db' : LeadsDb) : Type 0 where
    pub human : is_truthy (or_empty form.website) ≡ false
    pub consented : form.consent ≡ true
    pub timely : check_form_token cfg form.form_token now_us ≡ ok tt
    pub plain : check_content form.input.description ≡ ok tt
    pub lead : Lead
    pub drafts : ℕ
    pub stored : create_lead cfg name_le lead_id id now form.input db ≡ (ok (lead, drafts), db')

  submit-eq-ok :
      (form : LeadForm) (lead_id : ℕ) (id : ℕ → ℕ) (now now_us : ℕ) (db : LeadsDb)
      {o : Option (Lead × ℕ)} {db' : LeadsDb}
      → submit form lead_id id now now_us db ≡ (ok o, db')
      → (db' ≡ db) ⊎ Accepted form lead_id id now now_us db db'
  unfolding submit
  submit-eq-ok form lead_id id now now_us db {o} {db'} h =
      elim (Bool-cases (is_truthy (or_empty form.website))) [
        | inl bot ↦ inl (ground arith)
        | inr human ↦
            let (_, consented, rest) =
              bind-eq-ok (guard form.consent (error validation "consent required")) _ db
                (rw human at h) in
            let (_, timely, rest') =
              bind-eq-ok (lift (check_form_token cfg form.form_token now_us)) _ db rest in
            let (_, plain, rest'') =
              bind-eq-ok (lift (check_content form.input.description)) _ db rest' in
            let ((lead, drafts), created, rest''') =
              bind-eq-ok (create_lead cfg name_le lead_id id now form.input) _ db rest'' in
            inr (record {
              human = human;
              consented = check-eq-ok form.consent (error validation "consent required") consented;
              timely = timely;
              plain = plain;
              lead = lead;
              drafts = drafts;
              stored = ground (arith, created, rest''');
            })
      ]

  -- Nothing is stored unchecked: whatever its answer, a submission leaves leads and messages as they
  -- were, or the honeypot was empty, consent was given, the token and the description passed their
  -- checks, and the tables are those that `create_lead` leaves when it returns.
  pub submit_request_lem :
      (form : LeadForm) (lead_id : ℕ) (id : ℕ → ℕ) (now now_us : ℕ) (db : LeadsDb)
      → (((submit_request form lead_id id now now_us db).1.leads ≡ db.leads)
          × ((submit_request form lead_id id now now_us db).1.outreach ≡ db.outreach))
        ⊎ Accepted form lead_id id now now_us db (submit_request form lead_id id now now_us db).1
  unfolding submit_request get_db
  submit_request_lem form lead_id id now now_us db =
      elim (Result-cases (submit form lead_id id now now_us db).0) [
        | inl (o, e) ↦
            rw (e, get_db)
              (elim (submit-eq-ok form lead_id id now now_us db
                (ap (λ r. (r, (submit form lead_id id now now_us db).1)) e)) [
                  | inl same ↦ inl (rw same (refl, refl))
                  | inr accepted ↦ inr accepted
                ])
        | inr (x, e) ↦ rw (e, get_db) (inl (refl, refl))
      ]
