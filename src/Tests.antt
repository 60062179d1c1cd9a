-- ===== src/Tests.antt =====
-- Concrete inputs, and the theorems applied to them.
mod Data
mod Publisher
mod Frames
mod Catalogs
mod Requests
mod Players
mod Muxing
mod Rewriting
mod Sessions
mod Subtitling
mod Retrievals
