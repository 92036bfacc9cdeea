-- ===== src/Log.antt =====
-- src/utils/log.c. `Buffer` has the buffer that messages are collected in, `Message` the line of a
-- message, `Backups` the removal of old files and `Flush` the logger: the flush, the levels and the
-- configuration. `Stamp` has the names of files, `Thread` the writer thread, `Folders` the folders.
-- `Content` and `Line` are about the buffer, `Oldest` about the files that are removed, `RoundTrip` and
-- `Named` about the names, `Written` about the logger, `Writer` about the thread.
pub mod Buffer
pub mod Content
pub mod Message
pub mod Line
pub mod Stamp
pub mod RoundTrip
pub mod Named
pub mod Backups
pub mod Oldest
pub mod Flush
pub mod Written
pub mod Thread
pub mod Folders
pub mod Writer
mod Examples
