-- ===== src/Transcript.antt =====
-- The transcript worker (src/workers/transcript_batch.py), part by part.
pub mod Floats
pub mod Segments
pub mod Markdown
pub mod Reference
pub mod Publisher
pub mod Owned
pub mod Cycle
mod Tests
