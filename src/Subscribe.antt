-- ===== src/Subscribe.antt =====
-- The subscriber's choice of tracks, of internal/sub/sub.go.
pub mod Select
pub mod Planned
pub mod Ordered
pub mod Mux
pub mod MuxRun
pub mod MuxStep
pub mod MuxPlaying
pub mod MuxOutput
pub mod MuxCrash
pub mod Retrieve
pub mod Joining
pub mod Retrieved
pub mod Moqmi
pub mod Gaps
