-- ===== src/Storage.antt =====
-- crates/nookdb-core/src/storage.rs: read and write transactions over the storage engine.
pub mod Tx
pub mod Read
pub mod Write
pub mod Pure
pub mod Within
