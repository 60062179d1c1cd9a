-- ===== src/Subtitle.antt =====
-- Subtitles that show the time: internal/subtitle.go and its publisher in internal/pub/pub.go.
pub mod Cues
pub mod Seconds
pub mod Group
pub mod Contiguous
