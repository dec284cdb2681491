-- ===== src/Directory.antt =====
-- The directory callback of FreeSWITCH and the users of its legacy file.
pub mod Legacy
pub mod Credentials
pub mod Entry
pub mod Answer
pub mod Cache
pub mod Created
pub mod Disclosure
pub mod RoundTrip
mod Tests
