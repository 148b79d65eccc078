-- ===== src/CLib.antt =====
-- pset3/lib.cc: the C library subset that WeensyOS's kernel and applications share.
pub mod Blocks
pub mod Ctype
pub mod Strings
pub mod Numbers
pub mod Printer
pub mod Console
pub mod Random
mod Tests
