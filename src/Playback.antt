-- ===== src/Playback.antt =====
-- The simulated player of internal/sub/playback.go.
pub mod State
pub mod Units
pub mod Object
pub mod Advance
pub mod Flags
pub mod Prefix
pub mod Levels
pub mod Next
pub mod Rounds
pub mod Shown
pub mod Run
pub mod Order
pub mod Pending
pub mod Stored
pub mod Metrics
pub mod Create
pub mod Created
pub mod Fewer
pub mod Session
