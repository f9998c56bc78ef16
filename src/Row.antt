-- ===== src/Row.antt =====
-- sgi2fax/row.c: the operations on rows of image samples.
pub mod Loops
pub mod Samples
pub mod Cpack
pub mod Packed
pub mod Flip
mod Tests
