-- ===== src/FileLock.antt =====
-- The lock program of lab 2 (lab2/zad3/src/file_lock.c, file_lock.h): a line of text is parsed as a
-- command, which sets or frees a lock of one byte of a file, prints the locks, or reads or writes
-- the byte. Text holds parse, Locks try_lock and Session the loop of main; Reads, Words and
-- Blanks say which lines are commands, Holds which are refused, Effects what the others do and
-- Follows what becomes of a session.
pub mod Text
pub mod Locks
pub mod Reads
pub mod Words
pub mod Blanks
pub mod Holds
pub mod Effects
pub mod Session
pub mod Follows
mod Tests
