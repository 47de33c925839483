-- ===== src/Statement.antt =====
-- src/handlers/query.rs: what the program reads off the text of a SQL statement.
pub mod Keywords
pub mod Effect
pub mod Shape
