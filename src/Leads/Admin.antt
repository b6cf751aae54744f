-- ===== src/Leads/Admin.antt =====
-- The admin's requests on messages and the client's unsubscribe link, each in the transaction of
-- its request: routes/leads.py with apps/api/src/ozzb2b_api/db/session.py.
pub mod Final
use ozzb2b.Shared.{
  ℕ, Bool, true, false, not, Option, none, some, List, [], ◌∷◌, ◌++◌, ◌==◌, nat_eq, if◌then◌else◌,
  Text, codes, contains, is_none, Exec, Result, ok, err, ◌>>=◌, ◌>>◌, pure, raise, gets, get_db,
}
use ozzb2b.Errors.{Error, error, not_found, is_domain_error}
use ozzb2b.Mailer.{Smtp}
use ozzb2b.Leads.Data.{LeadsDb, LeadSettings, LeadStatus, OutreachMessage, rollback}
use ozzb2b.Leads.Outreach.{
  update_lead, update_outreach, skip_outreach, delete_outreach, lead_outreach_ids, add_draft,
  send_outreach, unsubscribe,
}

pub data Action : Type 0 where
  send delete : Action

-- OutreachBulkItem, without the copy of the message
pub record BulkItem : Type 0 where
  pub id : ℕ
  pub is_ok : Bool
  pub error_text : Option Text

abbrev pub refused : ℕ → Error → BulkItem
refused id e = record { id = id; is_ok = false; error_text = some (codes e.detail) }

abbrev pub done : ℕ → BulkItem
done id = record { id = id; is_ok = true; error_text = none }

-- `dict.fromkeys(ids)`: each id once, at its first place
pub distinct_onto : List ℕ → List ℕ → List ℕ
distinct_onto seen [] = []
distinct_onto seen (i ∷ ids) =
    let fresh = i ∷ distinct_onto (i ∷ seen) ids in
    let again = distinct_onto seen ids in if contains seen i then again else fresh

pub distinct : List ℕ → List ℕ
distinct = distinct_onto []

-- What a request may ask for: ids of rows, the id for a new row, and the new values.
pub data Request : Type 0 where
  updates_lead : ℕ → Option LeadStatus → Option Text → Request
  adds : ℕ → Text → ℕ → Request
  updates : ℕ → Option Text → Option Text → Option Text → Request
  sends skips deletes : ℕ → Request
  bulk : ℕ → Action → List ℕ → Request
  unsubscribes : Text → Text → Request

module _ (cfg : LeadSettings) (name_le : Text → Text → Bool) (smtp : Smtp) where
  -- the action on one message that belongs to the lead
  pub act : Action → ℕ → ℕ → Exec LeadsDb Error BulkItem
  act send now id = do
    m ← send_outreach cfg smtp id now
    pure (record { id = id; is_ok = is_none m.error; error_text = m.error })
  act delete now id = do delete_outreach id; pure (done id)

  pub bulk_one : List ℕ → Action → ℕ → ℕ → Exec LeadsDb Error BulkItem
  bulk_one owned action now id db =
      if contains owned id
      then act action now id db
      else (err (error not_found "outreach message not found"), db)

  -- `except DomainError`: the item fails alone; any other exception ends the request
  pub settle : ℕ → Exec LeadsDb Error BulkItem → Exec LeadsDb Error BulkItem
  settle id m db = elim (m db).0 [
    | ok item ↦ (ok item, (m db).1)
    | err e ↦ if is_domain_error e then (ok (refused id e), (m db).1) else (err e, (m db).1)
  ]

  pub bulk_loop : List ℕ → Action → ℕ → List ℕ → Exec LeadsDb Error (List BulkItem)
  bulk_loop owned action now [] db = (ok [], db)
  bulk_loop owned action now (id ∷ ids) db =
      (do
        item ← settle id (bulk_one owned action now id)
        items ← bulk_loop owned action now ids
        pure (item ∷ items))
        db

  pub bulk_outreach : ℕ → Action → ℕ → List ℕ → Exec LeadsDb Error (List BulkItem)
  bulk_outreach lead_id action now ids db =
      bulk_loop (lead_outreach_ids lead_id db) action now (distinct ids) db

  -- the handler of a request, at a reading of the clock
  pub handle : Request → ℕ → Exec LeadsDb Error Unit
  handle (updates_lead id status note) now = do update_lead id status note; pure tt
  handle (adds lead_id slug id) now = do add_draft cfg name_le lead_id slug id; pure tt
  handle (updates id to_email subject body) now = do
    update_outreach id to_email subject body
    pure tt
  handle (sends id) now = do send_outreach cfg smtp id now; pure tt
  handle (skips id) now = do skip_outreach id; pure tt
  handle (deletes id) now = delete_outreach id
  handle (bulk lead_id action ids) now = do bulk_outreach lead_id action now ids; pure tt
  handle (unsubscribes email token) now = unsubscribe cfg email token

  pub request : Request → ℕ → Exec LeadsDb Error Unit
  request r now = get_db rollback (handle r now)

  -- the requests that are served, each at its time
  pub serve : LeadsDb → List (Request × ℕ) → LeadsDb
  serve db [] = db
  serve db ((r, now) ∷ rest) = serve (request r now db).1 rest
