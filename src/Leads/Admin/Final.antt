-- ===== src/Leads/Admin/Final.antt =====
-- Across requests: what was sent stays as it was sent, whatever is asked for next.
use ozzb2b.Shared.{
  ℕ, ◌≡◌, Bool, true, List, [], ◌∷◌, nat_eq, Text, Exec, bind-holds, contains, get_db, Result-cases,
  arith, Bool-cases, inl, inr, ◌>>◌, pure,
}
use ozzb2b.Errors.{Error}
use ozzb2b.Mailer.{Smtp}
use ozzb2b.Leads.Data.{LeadsDb, LeadSettings, OutreachMessage, is_sent}
use ozzb2b.Leads.Outreach.{
  update_lead, update_outreach, skip_outreach, delete_outreach, add_draft, send_outreach,
  lead_outreach_ids,
}
use ozzb2b.Leads.Outreach.Final.{
  Stands, update_outreach-Stands, skip_outreach-Stands, delete_outreach-Stands, update_lead-Stands,
  unsubscribe-Stands, add_draft-Stands, send_outreach-Stands,
}
use ozzb2b.Leads.Admin.{
  Action, send, delete, BulkItem, distinct, act, bulk_one, settle, bulk_loop, bulk_outreach,
  Request, updates_lead, adds, updates, sends, skips, deletes, bulk, unsubscribes, handle, request,
  serve,
}

module _ (cfg : LeadSettings) (name_le : Text → Text → Bool) (smtp : Smtp) (k : ℕ)
    (m : OutreachMessage) (final : is_sent m.status ≡ true) where
  act-Stands :
      (a : Action) (now id : ℕ) (db : LeadsDb)
      → Stands k m db
      → Stands k m (act cfg name_le smtp a now id db).1
  unfolding act
  act-Stands send now id db s =
      bind-holds (Stands k m) (send_outreach cfg smtp id now) _ db sent λ _ _. sent
    where
      sent : Stands k m (send_outreach cfg smtp id now db).1
      sent = send_outreach-Stands k m final cfg smtp id now db s
  act-Stands delete now id db s = bind-holds (Stands k m) (delete_outreach id) _ db gone λ _ _. gone
    where
      gone : Stands k m (delete_outreach id db).1
      gone = delete_outreach-Stands k m final id db s

  bulk_one-Stands :
      (owned : List ℕ) (a : Action) (now id : ℕ) (db : LeadsDb)
      → Stands k m db
      → Stands k m (bulk_one cfg name_le smtp owned a now id db).1
  unfolding bulk_one
  bulk_one-Stands owned a now id db s = elim (Bool-cases (contains owned id)) [
    | inl e ↦ rw e (act-Stands a now id db s)
    | inr e ↦ rw e s
  ]

  settle-Stands :
      (id : ℕ) (b : Exec LeadsDb Error BulkItem) (db : LeadsDb)
      → Stands k m (b db).1
      → Stands k m (settle cfg name_le smtp id b db).1
  unfolding settle
  settle-Stands id b db s = ground (arith, s)

  bulk_loop-Stands :
      (owned : List ℕ) (a : Action) (now : ℕ) (ids : List ℕ) (db : LeadsDb)
      → Stands k m db
      → Stands k m (bulk_loop cfg name_le smtp owned a now ids db).1
  unfolding bulk_loop
  bulk_loop-Stands owned a now [] db s = s
  bulk_loop-Stands owned a now (id ∷ ids) db s =
      let one = settle cfg name_le smtp id (bulk_one cfg name_le smtp owned a now id) in
      let first =
        settle-Stands id (bulk_one cfg name_le smtp owned a now id) db
          (bulk_one-Stands owned a now id db s) in
      bind-holds (Stands k m) one _ db first λ item _.
        bind-holds (Stands k m) (bulk_loop cfg name_le smtp owned a now ids) _ (one db).1
          (bulk_loop-Stands owned a now ids (one db).1 first)
          λ _ _. bulk_loop-Stands owned a now ids (one db).1 first

  -- a handler that ends in `pure tt`
  then_done :
      {A : Type 0} (h : Exec LeadsDb Error A) (db : LeadsDb)
      → Stands k m (h db).1
      → Stands k m ((h >> pure tt) db).1
  then_done h db s = bind-holds (Stands k m) h (λ _. pure tt) db s (λ _ _. s)

  handle-Stands :
      (r : Request) (now : ℕ) (db : LeadsDb)
      → Stands k m db
      → Stands k m (handle cfg name_le smtp r now db).1
  unfolding handle bulk_outreach
  handle-Stands (updates_lead id status text) now db s =
      then_done (update_lead id status text) db (update_lead-Stands k m final id status text db s)
  handle-Stands (adds lead_id slug id) now db s =
      then_done (add_draft cfg name_le lead_id slug id) db
        (add_draft-Stands k m final cfg name_le lead_id slug id db s)
  handle-Stands (updates id to_email subject body) now db s =
      then_done (update_outreach id to_email subject body) db
        (update_outreach-Stands k m final id to_email subject body db s)
  handle-Stands (sends id) now db s =
      then_done (send_outreach cfg smtp id now) db
        (send_outreach-Stands k m final cfg smtp id now db s)
  handle-Stands (skips id) now db s =
      then_done (skip_outreach id) db (skip_outreach-Stands k m final id db s)
  handle-Stands (deletes id) now db s = delete_outreach-Stands k m final id db s
  handle-Stands (bulk lead_id a ids) now db s =
      then_done (bulk_outreach cfg name_le smtp lead_id a now ids) db
        (bulk_loop-Stands (lead_outreach_ids lead_id db) a now (distinct ids) db s)
  handle-Stands (unsubscribes email token) now db s =
      unsubscribe-Stands k m final cfg email token db s

  request-Stands :
      (r : Request) (now : ℕ) (db : LeadsDb)
      → Stands k m db
      → Stands k m (request cfg name_le smtp r now db).1
  unfolding request get_db
  request-Stands r now db s = elim (Result-cases (handle cfg name_le smtp r now db).0) [
    | inl (a, e) ↦ rw (e, get_db) (handle-Stands r now db s)
    | inr (x, e) ↦ rw (e, get_db) (record { unique = s.unique; found = s.found })
  ]

  -- What was sent is final: once the row of a message is sent, no sequence of requests (edits, skips,
  -- sends, deletions, bulk actions, new drafts, changes of leads, unsubscriptions, each ended by a
  -- commit or by a rollback) changes or removes it, and ids stay unique.
  pub serve-Stands :
      (db : LeadsDb) (rs : List (Request × ℕ))
      → Stands k m db
      → Stands k m (serve cfg name_le smtp db rs)
  unfolding serve
  serve-Stands db [] s = s
  serve-Stands db ((r, now) ∷ rs) s =
      serve-Stands (request cfg name_le smtp r now db).1 rs (request-Stands r now db s)
