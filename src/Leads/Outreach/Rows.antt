-- ===== src/Leads/Outreach/Rows.antt =====
-- How the operations read and write the table of messages, under unique ids.
use ozzb2b.Shared.{
  ℕ, ◌≡◌, ◌≢◌, refl, sym, Bool, false, some, ◌∷◌, ◌==◌, ◌||◌, ◌&&◌, nat_eq, eq_iff, find, any,
  select-IsUnique, IsUnique, update-IsUnique, find-update, find-update_other, find_sound, find-any,
  ap, Result, any-or_left, ok, found_or, arith, Bool-cases, inl, inr,
}
use ozzb2b.Errors.{Error, error, not_found}
use ozzb2b.Leads.Data.{LeadsDb, OutreachMessage, add_message}
use ozzb2b.Leads.Outreach.{get_outreach, flush_outreach}

abbrev pub has_id : ℕ → OutreachMessage → Bool
has_id k m = m.id == k

abbrev pub UniqueIds : LeadsDb → Type 0
UniqueIds db = IsUnique (λ (m : OutreachMessage). m.id) db.outreach

pub get_outreach_lem :
    (id : ℕ) (db : LeadsDb)
    → UniqueIds db
    → get_outreach id db
      ≡ (found_or (error not_found "outreach message not found") (find (has_id id) db.outreach), db)
unfolding get_outreach
get_outreach_lem id db u =
    rw (select-IsUnique (λ (m : OutreachMessage). m.id) id db.outreach u) (ground arith)

-- the flush of a changed row: other rows are found as before, and the row is found changed
pub find-flush_other :
    (k : ℕ) (m : OutreachMessage) (db : LeadsDb)
    → m.id ≢ k
    → find (has_id k) (flush_outreach m db).1.outreach ≡ find (has_id k) db.outreach
unfolding flush_outreach
find-flush_other k m db other =
    find-update_other (λ n. n.id == m.id) (has_id k) (λ n. m) db.outreach
      (λ y h. ground (arith, eq_iff y.id m.id, eq_iff y.id k))
      (λ y h. ground (arith, eq_iff m.id k))

pub flush-UniqueIds :
    (m : OutreachMessage) (db : LeadsDb) → UniqueIds db → UniqueIds (flush_outreach m db).1
unfolding flush_outreach
flush-UniqueIds m db u =
    update-IsUnique (λ (n : OutreachMessage). n.id) (λ n. n.id == m.id) (λ n. m) db.outreach
      (λ n e. sym ((eq_iff n.id m.id).0 e)) u

pub find-flush_self :
    (k : ℕ) (m old : OutreachMessage) (db : LeadsDb)
    → m.id ≡ k
    → find (has_id k) db.outreach ≡ some old
    → find (has_id k) (flush_outreach m db).1.outreach ≡ some m
unfolding flush_outreach
find-flush_self k m old db same e =
    find-update (λ n. n.id == m.id) (has_id k) (λ n. m) db.outreach old
      (λ y h. rw ((eq_iff y.id m.id).0 h) refl) e
      (ground
        (arith, eq_iff old.id k, eq_iff old.id m.id, find_sound (has_id k) db.outreach {x = old} e))

-- what a query that returns has found
pub get_outreach-eq-ok :
    (id : ℕ) (db : LeadsDb) {m : OutreachMessage}
    → UniqueIds db
    → (get_outreach id db).0 ≡ ok m
    → (find (has_id id) db.outreach ≡ some m) × (m.id ≡ id)
get_outreach-eq-ok id db {m} u h =
    let e : find (has_id id) db.outreach ≡ some m = ground (
      arith,
      ap (λ (p : Result Error OutreachMessage × LeadsDb). p.0) (get_outreach_lem id db u),
    ) in
    (e, (eq_iff m.id id).0 (find_sound (has_id id) db.outreach {x = m} e))

pub add_message-UniqueIds :
    (m : OutreachMessage) (db : LeadsDb) → UniqueIds db → UniqueIds (add_message m db).1
unfolding add_message
add_message-UniqueIds m db u =
    elim (Bool-cases (
      any (λ n. n.id == m.id || (n.lead_id == m.lead_id && n.provider_id == m.provider_id))
        db.outreach)) [
          | inl taken ↦ rw taken u
          | inr free ↦ rw free (
            any-or_left (λ n. n.id == m.id)
                (λ n. n.lead_id == m.lead_id && n.provider_id == m.provider_id) db.outreach free,
            u,
          )
        ]

-- a message that is added has an id that no row has, so that other searches are as before
pub find-add_message :
    (k : ℕ) (m old : OutreachMessage) (db : LeadsDb)
    → find (has_id k) db.outreach ≡ some old
    → find (has_id k) (add_message m db).1.outreach ≡ some old
unfolding add_message find
find-add_message k m old db e =
    elim (Bool-cases (
      any (λ n. n.id == m.id || (n.lead_id == m.lead_id && n.provider_id == m.provider_id))
        db.outreach)) [ inl taken ↦ rw taken e | inr free ↦ rw free (behind free) ]
  where
    behind :
        any
            (λ n. n.id == m.id || (n.lead_id == m.lead_id && n.provider_id == m.provider_id))
            db.outreach
          ≡ false
        → find (has_id k) (m ∷ db.outreach) ≡ some old
    behind free = ground (
      arith,
      e,
      eq_iff m.id k,
      eq_iff old.id k,
      eq_iff old.id m.id,
      find_sound (has_id k) db.outreach {x = old} e,
      find-any (λ n. n.id == m.id) (has_id k) db.outreach old e
          (any-or_left (λ n. n.id == m.id)
            (λ n. n.lead_id == m.lead_id && n.provider_id == m.provider_id) db.outreach free),
    )
