-- ===== src/Trunk.antt =====
-- ATA trunks: their tables, the tenant-scoped service and the imports.
pub mod Db
pub mod Service
pub mod Import
pub mod State
