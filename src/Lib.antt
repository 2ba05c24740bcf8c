-- ===== src/Lib.antt =====
-- The core of GekkoFS, a distributed file system for the node-local storage of a compute job: how a
-- write is cut into chunks and given to daemons, how a daemon serves it, how the metadata of a file is
-- stored and updated, and how a client keeps its file descriptors.
--
-- A client process (src/client) intercepts the calls of an application. It keeps a table of open files
-- (Client/FileMap.antt, client/open_file_map.cpp), and it turns a write into one request for each
-- daemon that holds chunks of the interval (Data/Write.antt, forward_write of
-- client/rpc/forward_data.cpp). The request says which chunks these are by a bit set in base64
-- (Common/Bitset.antt, common/rpc/rpc_util.cpp). A daemon (src/daemon) finds its chunks in the
-- interval, moves their parts and starts a tasklet for each one (Data/Serve.antt, rpc_srv_write and
-- rpc_srv_read of daemon/handler/srv_data.cpp, and the waiting functions of daemon/ops/data.cpp). The
-- chunk arithmetic is Common/Arithmetic.antt (include/common/arithmetic/arithmetic.hpp). Which host
-- holds a chunk is what a distributor says (Common/Distributor.antt, common/rpc/distributor.cpp). To
-- cut a file the client contacts the daemons that have to, and each one cuts its chunk files
-- (Data/Truncate.antt, forward_truncate of client/rpc/forward_data.cpp, truncate_abt of
-- daemon/ops/data.cpp, daemon/backend/data/chunk_storage.cpp). Metadata
-- records have a text form (Common/Metadata.antt, common/metadata.cpp), and updates of their size are
-- merged by an operator that the key-value store calls (Daemon/Merge.antt,
-- daemon/backend/metadata/merge.cpp). The store itself is Daemon/Store.antt and its children
-- (daemon/backend/metadata/rocksdb_backend.cpp and db.cpp, daemon/ops/metadentry.cpp), over an
-- interface `RocksDb` of what RocksDB documents; Tests/MemoryDb.antt meets it in memory. The requests
-- for metadata are answered by the handlers of Daemon/Handlers.antt
-- (daemon/handler/srv_metadata.cpp); Daemon/Handlers/Spec.antt says what they promise. A client lists a
-- directory by asking every daemon (Client/Directory.antt, client/rpc/forward_metadata.cpp), and it
-- writes and seeks in open files (Client/Files.antt and its children, client/gkfs_functions.cpp), with
-- its caches (Client/Cache.antt, client/cache.cpp). The choice of the host to read a chunk from is
-- Data/Read.antt (client/rpc/forward_data.cpp). A daemon keeps the chunks of a path as files of a
-- directory (Daemon/ChunkFiles.antt, daemon/backend/data/chunk_storage.cpp). A client
-- resolves paths before all else (Client/Resolve.antt, client/path.cpp, with Common/Paths.antt,
-- common/path_util.cpp). Paths without a leading include/ are below src/.
--
-- Machine words are natural numbers with their wrap-around written out (Base/Words.antt). State is a
-- record that an operation takes and returns; a failed assertion, an exception or a result with errno
-- is `none`, but where errors are values of their own, as in the store and the handlers, and where
-- errno is a field of the state, as in Client/Files.antt. Loops over an interval count its elements;
-- loops that repeat a system call or a random choice take the list of what comes of it, and theorems
-- say for which lists they end. The search for a free descriptor takes fuel,
-- one more than there are open files, and Client/FileMap/Search.antt proves that this is enough.
-- Twenty digits are enough for a 64-bit number in decimal.
--
-- Parameters stand for what other code does: the host that the distributor gives for a chunk and a
-- copy (`locate`), the outcome of a request (`send`), of a transfer (`transfer_ok`) and of a tasklet
-- (`run`), the results of system calls on chunk files (`Calls`), the
-- requests that a write or a seek sends (`Remote`), the hash of a string (`str_hash`),
-- whether a chunk file can be removed (`unlink_ok`) and the errno of cutting it (`trouble`), the database, the clock and the random id of an
-- append. Not modelled are RocksDB, Mercury, Margo and Argobots, which the sources call, threads and
-- locks, the interception of system calls, the proxy, statistics, logging and start-up.
pub mod Base
pub mod Common
pub mod Client
pub mod Data
pub mod Daemon
pub mod Tests
