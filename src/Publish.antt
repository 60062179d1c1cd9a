-- ===== src/Publish.antt =====
-- The publisher's handlers, of internal/pub/pub.go.
pub mod Names
pub mod Served
pub mod Location
pub mod Handlers
pub mod Answers
