-- ===== src/Paths.antt =====
-- Paths and names, from util.c, mfd.c and snapshot.c. A C string is the list of its bytes without
-- the terminating NUL.
pub mod Build
pub mod Snpath
pub mod Names
pub mod Label
pub mod Tests
