-- ===== src/Media.antt =====
-- The groups and objects that the publisher makes from the samples of a track.
pub mod Caption
pub mod Fragment
pub mod LocTrack
pub mod Moqmi
pub mod Runs
pub mod Complete
pub mod Rewrite
pub mod RewriteSplit
pub mod RewriteKept
pub mod Framed
pub mod RewriteTrack
pub mod Overwritten
pub mod VideoInit
pub mod AvcInit
pub mod Loaded
