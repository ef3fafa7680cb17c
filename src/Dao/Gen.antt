-- ===== src/Dao/Gen.antt =====
-- internal/dao/gen: the queries, each as one statement on the tables. A statement that would break a
-- constraint of db/migrations/001_init.sql is an error of the driver.
pub mod Rows
pub mod Users
pub mod Sessions
pub mod Surveys
pub mod Listing
pub mod Responses
pub mod Snapshots
