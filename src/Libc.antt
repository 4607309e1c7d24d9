-- ===== src/Libc.antt =====
-- The C library of the user programs.
pub mod Numbers
pub mod Print
pub mod Scan
pub mod Strings
mod Tests
