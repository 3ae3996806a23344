-- ===== src/Schema.antt =====
-- crates/nookdb-core/src/schema: the compiled schema, the compiler, and document validation.
pub mod Ir
pub mod Compile
pub mod Validate
pub mod WellFormed
pub mod Meaning
pub mod Accepted
pub mod Hash
