-- ===== src/Leads.antt =====
-- Client leads and the e-mails to providers: apps/api/src/ozzb2b_api/services/leads.py,
-- db/models/lead.py and the handlers of routes/leads.py.
pub mod Data
pub mod Form
pub mod Match
pub mod Draft
pub mod Create
pub mod Submit
pub mod Outreach
pub mod Admin
mod Samples
mod Tests
