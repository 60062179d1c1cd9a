-- ===== src/Loc.antt =====
-- LOC packaging: internal/pub/pub.go builds the objects, internal/sub/loc.go reads them.
pub mod Marking
pub mod Object
pub mod RoundTrip
