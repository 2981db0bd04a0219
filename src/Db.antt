-- ===== src/Db.antt =====
-- src/db: what the server keeps in memory of the database.
pub mod Names
pub mod UserCache
pub mod GroupCache
