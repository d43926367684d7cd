-- ===== src/RemoteZip.antt =====
-- Package remotezip (remotezip/main.go): an archive of files that are downloaded by several workers.
-- `Names` has the entry names, `Entries` the writing of an entry under the size caps, `Worker` the
-- loop that downloads one file, `Run` what hands the files out and gathers the errors.
pub mod Names
pub mod Entries
pub mod Worker
pub mod Run
mod Tests
