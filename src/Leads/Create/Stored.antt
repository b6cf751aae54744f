-- ===== src/Leads/Create/Stored.antt =====
-- What `create_lead` has stored when it returns.
use ozzb2b.Shared.{
  ℕ, suc, min, ◌≡◌, refl, sym, ap, ◌∙◌, subst, Bool, Option, some, none, List, [], ◌∷◌, ◌++◌, ◌==◌,
  nat_eq, text_eq, Text, length, All, All-append, length-append, count, select, Result, ok,
  bind-eq-ok, or_raise, scalar_one_or_none, arith,
}
use mathlib.Core.List.{append_assoc}
use ozzb2b.Errors.{Error, error, multiple, not_found}
use ozzb2b.Domain.{Provider}
use ozzb2b.Leads.Data.{
  Lead, LeadSettings, LeadsDb, OutreachMessage, OutreachStatus, Category, add_message,
}
use ozzb2b.Leads.Match.{match_providers, in_category, is_eligible}
use ozzb2b.Leads.Match.Laws.{eligible, length-match_providers}
use ozzb2b.Leads.Create.{
  LeadInput, city_of, new_lead, new_draft, add_drafts, store_drafts, create_lead,
}

module _ (cfg : LeadSettings) (name_le : Text → Text → Bool) where
  -- what is true of each message that a creation adds
  pub IsFresh : Lead → OutreachMessage → Type 0
  IsFresh lead m = (m.status ≡ OutreachStatus.draft) × (m.lead_id ≡ lead.id)

  pub record Added (lead : Lead) (n : ℕ) (db db' : LeadsDb) : Type 0 where
    pub fresh : List OutreachMessage
    pub drafts : All (IsFresh lead) fresh
    pub number : length fresh ≡ n
    pub outreach : db'.outreach ≡ fresh ++ db.outreach
    pub leads : db'.leads ≡ db.leads
    pub delivered : db'.delivered ≡ db.delivered

  add_message-eq-ok :
      (m : OutreachMessage) (db : LeadsDb)
      → (add_message m db).0 ≡ ok tt
      → (add_message m db).1 ≡ record db { outreach = m ∷ db.outreach }
  unfolding add_message
  add_message-eq-ok m db h = ground arith

  -- each pass adds one row
  add_drafts-eq-ok :
      (lead : Lead) (id : ℕ → ℕ) (k : ℕ) (ps : List Provider) (db : LeadsDb) {db' : LeadsDb}
      → add_drafts cfg name_le lead id k ps db ≡ (ok tt, db')
      → Added lead (length ps) db db'
  unfolding add_drafts IsFresh new_draft
  add_drafts-eq-ok lead id k [] db {db'} h =
      let same : db' ≡ db = sym (ap (λ (p : Result Error Unit × LeadsDb). p.1) h) in
      record {
        fresh = [];
        drafts = tt;
        number = refl;
        outreach = ap (λ (s : LeadsDb). s.outreach) same;
        leads = ap (λ (s : LeadsDb). s.leads) same;
        delivered = ap (λ (s : LeadsDb). s.delivered) same;
      }
  add_drafts-eq-ok lead id k (p ∷ ps) db {db'} h =
      let m = new_draft cfg name_le db lead p (id k) in
      let (_, added, rest) = bind-eq-ok (add_message m) _ db h in
      let one = add_message-eq-ok m db added in
      let a =
        add_drafts-eq-ok lead id (suc k) ps (record db { outreach = m ∷ db.outreach })
          (subst (λ s. add_drafts cfg name_le lead id (suc k) ps s ≡ (ok tt, db')) one rest) in
      record {
        fresh = a.fresh ++ m ∷ [];
        drafts = All-append (IsFresh lead) a.fresh (m ∷ []) a.drafts ((refl, refl), tt);
        number = omega (arith, length-append a.fresh (m ∷ []), a.number);
        outreach = a.outreach ∙ sym (append_assoc a.fresh (m ∷ []) db.outreach);
        leads = a.leads;
        delivered = a.delivered;
      }

  store_drafts-eq-ok :
      (lead : Lead) (id : ℕ → ℕ) (ps : List Provider) (db : LeadsDb) {l : Lead} {n : ℕ}
      {db' : LeadsDb}
      → store_drafts cfg name_le lead id ps db ≡ (ok (l, n), db')
      → (lead ≡ l) × (length ps ≡ n) × Added lead (length ps) db db'
  unfolding store_drafts
  store_drafts-eq-ok lead id ps db {l} {n} {db'} h =
      let (_, stored, rest) = bind-eq-ok (add_drafts cfg name_le lead id 0 ps) _ db h in
      let same : (add_drafts cfg name_le lead id 0 ps db).1 ≡ db' =
        ap (λ (p : Result Error (Lead × ℕ) × LeadsDb). p.1) rest in
      (
        ground arith,
        ground arith,
        add_drafts-eq-ok lead id 0 ps db (
            ap (λ r. (r, (add_drafts cfg name_le lead id 0 ps db).1)) stored
            ∙ ap (λ (s : LeadsDb). (ok tt, s)) same),
      )

  -- eligibility does not read the leads
  same_count :
      (lead : Lead) (s db : LeadsDb)
      → s ≡ record db { leads = s.leads }
      → (category : Option ℕ)
      → count (eligible name_le lead s category) s.providers
        ≡ count (eligible name_le lead db category) db.providers
  unfolding eligible is_eligible in_category
  same_count lead s db e none = rw e refl
  same_count lead s db e (some category) = rw e refl

  -- A lead is stored with its drafts: when `create_lead` returns, the lead is added, with as many
  -- drafts as there are eligible providers, cut at the limit, all of them new messages of this lead;
  -- the stored messages stay, and no mail has left.
  pub create_lead-eq-ok :
      (lead_id : ℕ) (id : ℕ → ℕ) (now : ℕ) (i : LeadInput) (db : LeadsDb) {lead : Lead} {n : ℕ}
      {db' : LeadsDb}
      → create_lead cfg name_le lead_id id now i db ≡ (ok (lead, n), db')
      → Added lead n (record db { leads = lead ∷ db.leads }) db'
        × (n
            ≡ min cfg.lead_max_drafts
                (count (eligible name_le lead db lead.category_id) db.providers))
  unfolding create_lead
  create_lead-eq-ok lead_id id now i db {lead} {n} {db'} h =
      let (found, _, rest) =
        bind-eq-ok
          (λ (s : LeadsDb). (
            scalar_one_or_none multiple
                (select (λ (c : Category). c.slug == i.category_slug) s.categories),
            s,
          ))
          _ db h in
      let (category, _, rest') =
        bind-eq-ok (or_raise (error not_found "category not found") found) _ db rest in
      let made = new_lead lead_id now category (city_of db i.city_id) i in
      let db1 : LeadsDb = record db { leads = made ∷ db.leads } in
      let ps = match_providers name_le made db1 cfg.lead_max_drafts in
      let (same, number, added) = store_drafts-eq-ok made id ps db1 rest' in
      let size = length-match_providers name_le made db1 cfg.lead_max_drafts in
      (
        subst (λ l. Added l n (record db { leads = l ∷ db.leads }) db') same
            (subst (λ k. Added made k db1 db') number added),
        subst
            (λ (l : Lead).
              n
              ≡ min cfg.lead_max_drafts (count (eligible name_le l db l.category_id) db.providers))
            same
            (sym number
              ∙ (size
                  ∙ ap (min cfg.lead_max_drafts) (same_count made db1 db refl made.category_id))),
      )
