-- ===== src/Repositories.antt =====
-- listener/database/repositories/: how the repositories treat the answers of the database.
pub mod Base
pub mod Entries
