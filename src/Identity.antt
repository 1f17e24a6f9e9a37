-- ===== src/Identity.antt =====
-- collector/identity/resolve.ts: which listings of different providers are one session.
pub mod Sets
pub mod Listing
pub mod Assess
pub mod Pairs
pub mod Sessions
pub mod Resolve
mod Tests
