-- ===== src/Database.antt =====
-- include/database and source/database over the interface of libmdbx.
pub mod Id
pub mod Rows
pub mod Mdbx
pub mod Memory
pub mod Samples
pub mod Operation
pub mod Cursor
pub mod Table
pub mod Tests
