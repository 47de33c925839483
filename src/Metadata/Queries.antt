-- ===== src/Metadata/Queries.antt =====
-- src/handlers/metadata.rs: the texts of the catalogue queries, as the handlers send them.
pub mod Columns
pub mod Tables
pub mod Views
pub mod Routines
