-- ===== src/Dictionary.antt =====
-- The hash table of the library: libhylafax/Dictionary.h and libhylafax/Dictionary.c++.
pub mod Table
pub mod Chains
pub mod Map
pub mod Operations
pub mod Refine
pub mod Iterate
mod Tests
