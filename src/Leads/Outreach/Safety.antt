-- ===== src/Leads/Outreach/Safety.antt =====
-- When `send_outreach` hands a mail to the server, and when it cannot.
use ozzb2b.Shared.{
  ℕ, ◌≡◌, refl, ◌∙◌, ap, sym, subst, ◌⊎◌, inl, inr, true, false, none, some, List, ◌∷◌, ◌==◌,
  nat_eq, text_eq, eq_refl, Text, codes, prefix, normalize, normalize_idem, is_truthy, find,
  contains, Exec, Result, ok, guard, bind-eq-ok, Bool-cases, Option-cases, ◌>>=◌, if◌then◌else◌,
}
use mathlib.Core.Bool.{false≢true}
use ozzb2b.Errors.{Error, error, validation}
use ozzb2b.Leads.Draft.{unsubscribe_url}
use ozzb2b.Mailer.{
  Dialogue, accepted, refused, broken_off, build_refuses, Smtp, SendOutcome, send_mail,
  OutgoingMail,
}
use ozzb2b.Leads.Data.{
  LeadsDb, LeadSettings, OutreachMessage, OutreachStatus, is_editable_status, unsubscribe_token,
  sign,
}
use ozzb2b.Leads.Outreach.{
  ensure_editable, flush_outreach, is_suppressed, mail_of, send_row, hand_over, after_sending,
  send_outreach, unsubscribe,
}
use ozzb2b.Leads.Outreach.Rows.{has_id, UniqueIds, get_outreach_lem}

-- What stood in the way of no mail: the row, its status, its address.
pub record MaySend (id : ℕ) (db : LeadsDb) : Type 0 where
  pub row : OutreachMessage
  pub found : find (has_id id) db.outreach ≡ some row
  pub editable : is_editable_status row.status ≡ true
  pub addressed : is_truthy row.to_email ≡ true
  pub welcome : is_suppressed row.to_email db ≡ false

-- The mail of a message: its address, subject and body as they stand, and the link for its address.
pub record IsMailOf (cfg : LeadSettings) (m : OutreachMessage) (mail : OutgoingMail) : Type 0 where
  pub to : mail.to ≡ m.to_email
  pub subject : mail.subject ≡ m.subject
  pub body : mail.body ≡ m.body
  pub list_unsubscribe : mail.list_unsubscribe ≡ some (unsubscribe_url cfg m.to_email)

mail_of-IsMailOf : (cfg : LeadSettings) (m : OutreachMessage) → IsMailOf cfg m (mail_of cfg m)
unfolding mail_of
mail_of-IsMailOf cfg m = record { to = refl; subject = refl; body = refl; list_unsubscribe = refl }

Dialogue-cases :
    (d : Dialogue)
    → (d ≡ accepted)
      ⊎ (((reason : Text) × (d ≡ refused reason)) ⊎ ((reason : Text) × (d ≡ broken_off reason)))
Dialogue-cases accepted = inl refl
Dialogue-cases (refused reason) = inr (inl (reason, refl))
Dialogue-cases (broken_off reason) = inr (inr (reason, refl))

module _ (cfg : LeadSettings) (smtp : Smtp) where
  abbrev pub delivered_after : ℕ → ℕ → LeadsDb → List OutgoingMail
  delivered_after id now db = (send_outreach cfg smtp id now db).1.delivered

  after_sending-delivered :
      (m : OutreachMessage) (now : ℕ) (o : SendOutcome) (db : LeadsDb)
      → (after_sending cfg smtp m now o db).1.delivered ≡ db.delivered
  unfolding after_sending flush_outreach
  after_sending-delivered m now SendOutcome.sent db = refl
  after_sending-delivered m now (SendOutcome.undelivered reason) db = refl
  after_sending-delivered m now SendOutcome.malformed db = refl

  -- how a call ends that handed a mail over: the message is marked as sent, or as failed with the text
  -- of an error
  abbrev pub IsHandled : OutreachMessage → ℕ → Result Error OutreachMessage → Type 0
  IsHandled m now r =
      (r ≡ ok (record m { status = OutreachStatus.sent; sent_at = some now; error = none }))
      ⊎ ((reason : Text) × (r
            ≡ ok (record m { status = OutreachStatus.failed; error = some (prefix 2000 reason) })))

  -- what left is one mail, with an outcome that is no ValueError
  send_mail-delivered :
      (mail : OutgoingMail) (taken : List OutgoingMail)
      → ((send_mail cfg.mail smtp mail taken).1 ≡ taken)
        ⊎ (((send_mail cfg.mail smtp mail taken).1 ≡ mail ∷ taken)
            × (((send_mail cfg.mail smtp mail taken).0 ≡ SendOutcome.sent)
                ⊎ ((reason : Text) × ((send_mail cfg.mail smtp mail taken).0
                      ≡ SendOutcome.undelivered reason))))
  unfolding send_mail
  send_mail-delivered mail taken = elim (Bool-cases (build_refuses cfg.mail mail)) [
    | inl e ↦ rw e (inl refl)
    | inr e ↦ elim (Bool-cases cfg.mail.mail_enabled) [
      | inr off ↦ rw (e, off) (inl refl)
      | inl on ↦ elim (Dialogue-cases (smtp taken mail)) [
        | inl d ↦ rw (e, on, d) (inr (refl, inl refl))
        | inr (inl (reason, d)) ↦ rw (e, on, d) (inl refl)
        | inr (inr (reason, d)) ↦ rw (e, on, d) (inr (refl, inr (_, refl)))
      ]
    ]
  ]

  after_sending-IsHandled :
      (m : OutreachMessage) (now : ℕ) (db : LeadsDb) (o : SendOutcome)
      → (o ≡ SendOutcome.sent) ⊎ ((reason : Text) × (o ≡ SendOutcome.undelivered reason))
      → IsHandled m now (after_sending cfg smtp m now o db).0
  unfolding after_sending flush_outreach
  after_sending-IsHandled m now db o (inl e) = rw e (inl refl)
  after_sending-IsHandled m now db o (inr (reason, e)) = rw e (inr (reason, refl))

  -- the last part of `send_outreach`, once the checks have passed
  pub dispatch : OutreachMessage → ℕ → Exec LeadsDb Error OutreachMessage
  dispatch m now = hand_over cfg smtp m >>= λ o. after_sending cfg smtp m now o

  dispatch-delivered :
      (m : OutreachMessage) (now : ℕ) (db : LeadsDb)
      → ((dispatch m now db).1.delivered ≡ db.delivered)
        ⊎ (((dispatch m now db).1.delivered ≡ mail_of cfg m ∷ db.delivered)
            × IsHandled m now (dispatch m now db).0)
  unfolding dispatch hand_over
  dispatch-delivered m now db = elim (send_mail-delivered (mail_of cfg m) db.delivered) [
    | inl same ↦ inl (after_sending-delivered m now _ _ ∙ same)
    | inr (more, done) ↦
        inr (after_sending-delivered m now _ _ ∙ more, after_sending-IsHandled m now _ _ done)
  ]

  send_row_safety :
      (m : OutreachMessage) (now : ℕ) (db : LeadsDb)
      → ((send_row cfg smtp m now db).1.delivered ≡ db.delivered)
        ⊎ ((is_editable_status m.status ≡ true)
            × (is_truthy m.to_email ≡ true)
            × (is_suppressed m.to_email db ≡ false)
            × ((send_row cfg smtp m now db).1.delivered ≡ mail_of cfg m ∷ db.delivered)
            × IsHandled m now (send_row cfg smtp m now db).0)
  unfolding send_row ensure_editable hand_over dispatch
  send_row_safety m now db = elim (Bool-cases (is_editable_status m.status)) [
    | inr e ↦ rw e (inl refl)
    | inl e ↦ elim (Bool-cases (is_truthy m.to_email)) [
      | inr a ↦ rw (e, a) (inl refl)
      | inl a ↦ elim (Bool-cases (is_suppressed m.to_email db)) [
        | inl w ↦ rw (e, a, w) (inl refl)
        | inr w ↦
            rw (e, a, w)
              (elim (dispatch-delivered m now db) [
                | inl same ↦ inl (unfold dispatch in same)
                | inr (more, done) ↦ inr (refl, refl, refl, more, done)
              ])
      ]
    ]
  ]

  pub send_outreach_safety :
      (id now : ℕ) (db : LeadsDb)
      → UniqueIds db
      → ((send_outreach cfg smtp id now db).1.delivered ≡ db.delivered)
        ⊎ ((s : MaySend id db) × (mail : OutgoingMail) × IsMailOf cfg s.row mail
            × ((send_outreach cfg smtp id now db).1.delivered ≡ mail ∷ db.delivered)
            × IsHandled s.row now (send_outreach cfg smtp id now db).0)
  unfolding send_outreach
  send_outreach_safety id now db u =
      rw (get_outreach_lem id db u, send_outreach)
        (elim (Option-cases (find (has_id id) db.outreach)) [
          | inl e ↦ rw e (inl refl)
          | inr (m, e) ↦ rw e (elim (send_row_safety m now db) [
            | inl same ↦ inl same
            | inr (editable, addressed, welcome, more, done) ↦ inr (
              record {
                row = m;
                found = e;
                editable = editable;
                addressed = addressed;
                welcome = welcome;
              },
              mail_of cfg m,
              mail_of-IsMailOf cfg m,
              more,
              done,
            )
          ])
        ])

suppress_contains :
    (email : Text) (db : LeadsDb)
    → contains
        (if is_suppressed (normalize email) db
          then db.suppressions
          else normalize email ∷ db.suppressions)
        (normalize email)
      ≡ true
unfolding is_suppressed contains
suppress_contains email db = elim (Bool-cases (is_suppressed (normalize email) db)) [
  | inl e ↦ rw e (rw (normalize_idem email) at e)
  | inr e ↦ rw e (rw (eq_refl (normalize email)) refl)
]

-- what an unsubscription that returns leaves
unsubscribe-eq-ok :
    (cfg : LeadSettings) (email token : Text) (db : LeadsDb) {db' : LeadsDb}
    → unsubscribe cfg email token db ≡ (ok tt, db')
    → (db'.outreach ≡ db.outreach)
      × (db'.delivered ≡ db.delivered)
      × (contains db'.suppressions (normalize email) ≡ true)
unfolding unsubscribe
unsubscribe-eq-ok cfg email token db {db'} h =
    let (_, _, rest) =
      bind-eq-ok
        (guard (token == unsubscribe_token cfg (normalize email))
          (error validation "invalid unsubscribe link"))
        _ db h in
    let after = ap (λ (p : Result Error Unit × LeadsDb). p.1) rest in
    (
      sym (ap (λ (s : LeadsDb). s.outreach) after),
      sym (ap (λ (s : LeadsDb). s.delivered) after),
      subst (λ (s : LeadsDb). contains s.suppressions (normalize email) ≡ true) after
          (suppress_contains email db),
    )

-- An address that followed its unsubscribe link gets no more mail: once `unsubscribe` has returned
-- for a spelling of an address, sending a message to any spelling of it hands nothing to the server.
pub unsubscribe-send_outreach :
    (cfg : LeadSettings) (smtp : Smtp) (email token : Text) (db : LeadsDb) (id now : ℕ)
    (m : OutreachMessage) {db' : LeadsDb}
    → UniqueIds db
    → unsubscribe cfg email token db ≡ (ok tt, db')
    → find (has_id id) db.outreach ≡ some m
    → normalize m.to_email ≡ normalize email
    → (send_outreach cfg smtp id now db').1.delivered ≡ db.delivered
unfolding is_suppressed
unsubscribe-send_outreach cfg smtp email token db id now m {db'} u h e same =
    let (rows, mails, listed) = unsubscribe-eq-ok cfg email token db h in
    elim (send_outreach_safety cfg smtp id now db' (rw rows u)) [
      | inl nothing ↦ nothing ∙ mails
      | inr (s, _, _, _, _) ↦
          let here : find (has_id id) db'.outreach ≡ some m = rw rows e in
          let row : s.row ≡ m = cc (s.found, here) in
          absurd (false≢true (sym s.welcome ∙ (rw (row, same) listed)))
    ]

-- The link in a mail works: the token made for an address unsubscribes it, however it is spelled.
pub unsubscribe_link :
    (cfg : LeadSettings) (email : Text) (db : LeadsDb)
    → ((unsubscribe cfg email (unsubscribe_token cfg email) db).0 ≡ ok tt)
      × (is_suppressed email (unsubscribe cfg email (unsubscribe_token cfg email) db).1 ≡ true)
unfolding unsubscribe is_suppressed unsubscribe_token
unsubscribe_link cfg email db = rw (normalize_idem email) (
    rw (eq_refl (sign cfg (codes "unsubscribe") (normalize email)))
      (refl, suppress_contains email db))
