-- ===== src/WorkQueue.antt =====
-- Package pqworkqueue: a job queue in a Postgres table (pqworkqueue/main.go). A statement of SQL is
-- a function on the table's committed rows, in any order, and a time is a number. `Table` has the
-- rows and the statements, `Add` puts jobs in, `Watch` runs them, `Status` reads them.
pub mod Table
pub mod Add
pub mod Watch
pub mod Status
mod Tests
