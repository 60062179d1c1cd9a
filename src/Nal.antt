-- ===== src/Nal.antt =====
-- Video frames as NAL units: internal/cc608/splice.go, the writer of LOC video in internal/sub/loc.go and
-- the parameter sets of internal/media.go.
pub mod Frame
pub mod Splice
pub mod Captioned
pub mod Framing
