-- ===== src/Extract.antt =====
-- src/extract.rs: values of PostgreSQL's binary wire format as JSON.
pub mod Bytes
pub mod Numbers
pub mod BitString
pub mod Times
pub mod Intervals
pub mod Library
pub mod Rows
pub mod Ranges
pub mod Containers
pub mod Types
pub mod Scalars
pub mod Systems
pub mod Vectors
pub mod TextSearch
pub mod Geometry
