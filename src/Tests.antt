-- ===== src/Tests.antt =====
-- Runs of the definitions on concrete inputs, and the theorems applied to them.
mod Statements
mod Pages
mod Requests
mod Backend
mod Protocol
mod Sweeps
mod Sizes
mod Tables
mod Values
mod Writes
mod Catalog
mod Connectors
mod Pools
mod Runs
mod Queries
mod Workers
