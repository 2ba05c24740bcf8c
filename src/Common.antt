-- ===== src/Common.antt =====
-- The code that clients and daemons share: src/common and include/common.
pub mod Arithmetic
pub mod Bitset
pub mod Metadata
pub mod Distributor
pub mod Paths
