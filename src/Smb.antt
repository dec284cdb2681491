-- ===== src/Smb.antt =====
-- The SMB backup worker (src/workers/smb_sync.py), part by part.
pub mod Names
pub mod NameLaws
pub mod Published
mod Tests
pub mod Breaker
pub mod Share
pub mod Publish
pub mod Limiter
pub mod Cycle
pub mod Temporaries
pub mod Call
