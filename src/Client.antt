-- ===== src/Client.antt =====
-- The client library that intercepts system calls: include/client and src/client.
pub mod FileMap
pub mod Resolve
pub mod Cache
pub mod Directory
pub mod Files
