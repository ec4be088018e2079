-- ===== src/Block.antt =====
-- block.c: the blocks of a main file saved before they are overwritten, and read back.
pub mod Calc
pub mod State
pub mod Locking
pub mod Save
pub mod Kept
pub mod Round
pub mod Copy
pub mod Loop
pub mod Saving
pub mod Read
pub mod View
pub mod Reading
pub mod Seen
pub mod Contents
pub mod Isolation
pub mod Total
pub mod Tests
