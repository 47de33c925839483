-- ===== src/Lib.antt =====
-- A verification library of the PostgreSQL plugin of Tabularis: the program reads requests as lines of
-- JSON, runs statements on pooled or session-pinned connections, and writes replies.
--
-- Files and the code they model (paths from the repository's root; `src/handlers/query.rs` is cut by
-- subject):
--   Base         text as code points, lists and numbers, decimal print and parse, as the Rust
--                standard library gives them to the code
--   Json         serde_json's values
--   Statement    src/handlers/query.rs: the classifications of a statement by its text
--   Pagination   src/utils/pagination.rs
--   Identifiers  src/utils/identifiers.rs, and string literals
--   Cancel       src/cancel.rs: the registry of cancel actions
--   Query        src/handlers/query.rs: a statement on a connection, the one-shot transaction behind a
--                pooler, a batch in a session, and the requests and replies of its handlers
--   Settings     src/settings.rs: the pool size
--   SessionMap   src/session.rs: the map of sessions with its slots; runs, releases, sweeps and the shutdown
--                as steps, and the periodic cleanup of src/main.rs
--   Rpc          src/rpc.rs: a line of the protocol, its dispatch and its response
--   Lanes        src/main.rs: the reader and its queues, the reader and the workers of the three lanes as
--                interleaved steps in which a worker can die, the writer, and the end of `main`
--   Ddl          src/handlers/ddl.rs: DDL statements and their handlers
--   Extract      src/extract.rs and src/utils/values.rs: values of the binary wire format as JSON
--   Binding      src/binding.rs: JSON values as SQL fragments with typed parameters
--   Crud         src/handlers/crud.rs and src/handlers/blob.rs: insert, update and delete of a row, and
--                its binary columns
--   Routines     src/handlers/routines.rs: calls, templates and removal of stored routines
--   Blob         src/utils/blob.rs: the wire format of binary values
--   Metadata     src/handlers/metadata.rs: the listings of the catalogue with their SQL texts (Queries) and
--                the objects made of a row (Rows), table DDL, views, triggers, and rows grouped by table
--   Catalog      src/client.rs: rows as `try_get` reads them, and the lookups of column types
--   Connections  src/models.rs, src/client.rs: connection parameters, the key and target of a pool,
--                TLS modes, the TLS connector, and the cache of pools
--   Tests        runs on concrete inputs
--
-- How the parts interact: the reader (Lanes) queues a line by its method, and a worker gives it to
-- `handle_line` (Rpc), which calls a handler (Query, Crud, Routines, Ddl, Metadata). A batch
-- (Query/Batch) registers a cancel action (Cancel), runs each statement (Query/Client) or hands it
-- to a one-shot transaction (Query/Pooled), and keeps two flags up to date by the classifications
-- (Statement); a paginated statement is rewritten first (Pagination). Its end pins the connection
-- in the slot of the session, or gives it back to the pool (SessionMap).
--
-- Outside the model is a parameter: `Server` gives the operations of tokio-postgres on the state of a
-- connection, and `table` is Unicode's upper-case mapping of the characters that are not ASCII.
-- Arithmetic on u32 is written with `% 2 ^ 32` or capped, as the code does. Text positions count
-- characters where Rust counts bytes. Loops are structural recursion over their input, except
-- `strip_loop`, whose fuel is the length of the statement and one more: a round reads two characters.
--
-- The decoders of crates (rust_decimal, chrono, uuid, serde_json, base64, infer) and the printing of
-- floats are the fields of `Extract.Library` and `Binding.Crates`; the lookups and the execution of
-- src/client.rs enter src/handlers/crud.rs, src/handlers/routines.rs and src/handlers/metadata.rs as a
-- `Client` over the state of the connection.
--
-- A query of src/client.rs is `query_rows`, over the state of the database: SQL text and text parameters
-- to rows or an error. What a query means is the server's.
--
-- Not modelled: the startup script and the hooks of the pools in src/client.rs, the connection test of
-- src/handlers/connection.rs and the test driver, which are input and output; the certificate verifiers
-- of src/client.rs, which call rustls; logging and elapsed times. Within src/extract.rs, a half-precision
-- float is converted by a parameter.
pub mod Base
pub mod Binding
pub mod Blob
pub mod Cancel
pub mod Catalog
pub mod Connections
pub mod Crud
pub mod Ddl
pub mod Extract
pub mod Identifiers
pub mod Json
pub mod Lanes
pub mod Metadata
pub mod Pagination
pub mod Query
pub mod Routines
pub mod Rpc
pub mod SessionMap
pub mod Settings
pub mod Statement
pub mod Tests
