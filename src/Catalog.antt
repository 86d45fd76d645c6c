-- ===== src/Catalog.antt =====
-- pkg/catalog: suggestions, the allowlist, entries, the clients, the caches and stores, the
-- prewarm job, and the check of queries against the catalog.
pub mod Suggest
pub mod Allowlist
pub mod Cache
pub mod Clients
pub mod Entry
pub mod Prewarm
pub mod Store
pub mod Checker
