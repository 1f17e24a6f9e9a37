-- ===== src/Catalog.antt =====
-- web/lib/materialized-catalog.ts and web/lib/search.ts: the catalog that requests are served from.
pub mod Event
pub mod Eligible
pub mod Offers
pub mod Project
pub mod Build
mod Tests
