-- ===== src/Dao.antt =====
-- internal/dao: the tables, the statements of its queries, and the operations of the Store over them.
pub mod Tables
pub mod Exec
pub mod Json
pub mod Gen
pub mod Store
pub mod Sound
pub mod Publish
pub mod Submission
