-- ===== src/Catalog.antt =====
-- The catalog, of internal/catalog.go, with what the publisher and the subscriber do with it.
pub mod Types
pub mod Lookup
pub mod Depend
pub mod Walk
pub mod Order
pub mod Acyclic
pub mod Loc
pub mod Cmaf
pub mod Resolve
pub mod InitRefs
