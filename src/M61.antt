-- ===== src/M61.antt =====
-- pset1b: the allocators.
pub mod Derp
pub mod Bump
pub mod Once
pub mod Lastalloc
pub mod Reuseempty
pub mod Staff
mod Tests
