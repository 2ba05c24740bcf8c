-- ===== src/Data.antt =====
-- The data path: how a write is split over the hosts, and what each host stores.
pub mod Write
pub mod Read
pub mod Serve
pub mod Truncate
use gekko_fs.Base.{ℕ}

-- gkfs::config::rpc::chunksize
abbrev pub chunksize : ℕ
chunksize = 524288
