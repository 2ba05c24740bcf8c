-- ===== src/Tests.antt =====
-- Each theorem at a concrete input where its hypotheses hold.
mod Arithmetic
mod Chunks
mod Descriptors
mod Placement
mod Records
mod Truncation
mod Paths
mod MemoryDb
mod Storage
mod Files
mod Requests
