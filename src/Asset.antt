-- ===== src/Asset.antt =====
-- The publisher's assets, of internal/asset.go and internal/media.go.
pub mod Types
pub mod Lookup
pub mod Setup
pub mod Loops
pub mod Load
pub mod Loading
