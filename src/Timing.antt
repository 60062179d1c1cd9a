-- ===== src/Timing.antt =====
-- Which samples go into which group: internal/moqgroup.go and `CalcSample` of internal/asset.go.
pub mod Group
pub mod Sample
pub mod Round
pub mod Cover
pub mod Loop
pub mod Chunk
