-- ===== src/Catalog.antt =====
-- The public catalogue: apps/api/src/ozzb2b_api/services/catalog.py with its rows (db/models), its
-- schemas and mappers (schemas/catalog.py, services/provider_mapping.py), and routes/catalog.py with the
-- cache of clients/cache.py.
pub mod Data
pub mod Rows
pub mod Query
pub mod Facets
pub mod Multiplicity
pub mod Matching
pub mod Grouping
pub mod Counts
pub mod View
pub mod Cached
pub mod Routes
pub mod Forest
mod Tests
