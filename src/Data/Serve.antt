-- ===== src/Data/Serve.antt =====
-- The daemon's side: rpc_srv_write and rpc_srv_read of src/daemon/handler/srv_data.cpp, with
-- wait_for_tasks and wait_for_tasks_and_push_back of src/daemon/ops/data.cpp. `transfer_ok` stands
-- for margo_bulk_transfer and `run` for the tasklet that accesses the chunk file. Failures of
-- Mercury and Argobots that end the handler before its loop are left out.
pub mod Pieces
pub mod Tasks
pub mod Placed
pub mod Waits
pub mod Writes
pub mod Whole
use gekko_fs.Base.{
  ℕ, zero, suc, ◌+◌, ◌-◌, ◌*◌, Bool, true, false, not, ◌&&◌, eqb, leb, ltb, if◌then◌else◌, List, [],
  ◌∷◌, ◌++◌, Option, none, some,
}
use gekko_fs.Base.Eq.{Bytes}
use gekko_fs.Base.Words.{add64, sub64}
use gekko_fs.Common.Bitset.{get_bitset}
use gekko_fs.Common.Bitset.Base64.{base64_decode}
use gekko_fs.Data.{chunksize}
use gekko_fs.Data.Write.{WriteIn, eio, ebusy}

-- One chunk's work: `size` bytes are moved between `origin` of the client's buffer and `local` of the
-- daemon's, and the tasklet moves those at `buffer` of the daemon's and at `file_offset` of the chunk.
pub record Task : Type 0 where
  pub chunk_id : ℕ
  pub origin : ℕ
  pub local : ℕ
  pub buffer : ℕ
  pub size : ℕ
  pub file_offset : ℕ

-- The variables of the loop; `chnk_ptr` is kept as its distance from the start of the buffer.
pub record Loop : Type 0 where
  pub chnk_id_curr : ℕ
  pub chnk_size_left_host : ℕ
  pub chnk_ptr : ℕ
  pub transfer_size : ℕ
  pub tasks : List Task

abbrev pub init_loop : WriteIn → ℕ → Loop
init_loop req bulk_size = record {
  chnk_id_curr = 0;
  chnk_size_left_host = req.total_chunk_size;
  chnk_ptr = 0;
  transfer_size = if leb bulk_size chunksize then bulk_size else chunksize;
  tasks = [];
}

unfoldable pub offset_transfer_size : WriteIn → ℕ → ℕ
offset_transfer_size req bulk_size =
    if leb (req.offset + bulk_size) chunksize then bulk_size else chunksize - req.offset

unfoldable pub origin_offset : WriteIn → ℕ → ℕ
origin_offset req id =
    if ltb 0 req.offset
    then (chunksize - req.offset) + ((id - req.chunk_start) - 1) * chunksize
    else (id - req.chunk_start) * chunksize

abbrev pub next_transfer_size : WriteIn → Loop → ℕ
next_transfer_size req l =
    if eqb l.chnk_id_curr (req.chunk_n - 1) then l.chnk_size_left_host else l.transfer_size

unfoldable pub chunk_task : WriteIn → ℕ → Loop → ℕ → Task
chunk_task req bulk_size l id =
    if eqb id req.chunk_start && ltb 0 req.offset
    then record {
      chunk_id = id;
      origin = 0;
      local = 0;
      buffer = l.chnk_ptr;
      size = offset_transfer_size req bulk_size;
      file_offset = req.offset;
    }
    else record {
      chunk_id = id;
      origin = origin_offset req id;
      local = req.total_chunk_size - l.chnk_size_left_host;
      buffer = l.chnk_ptr;
      size = next_transfer_size req l;
      file_offset = if eqb id req.chunk_start then req.offset else 0;
    }

-- The loop's variables after one chunk; the unsigned size that is left wraps around.
unfoldable pub add_task : WriteIn → ℕ → Loop → ℕ → Loop
add_task req bulk_size l id =
    let task = chunk_task req bulk_size l id in
    record {
      chnk_id_curr = l.chnk_id_curr + 1;
      chnk_size_left_host = sub64 l.chnk_size_left_host task.size;
      chnk_ptr = l.chnk_ptr + task.size;
      transfer_size =
          if eqb id req.chunk_start && ltb 0 req.offset
          then l.transfer_size
          else next_transfer_size req l;
      tasks = l.tasks ++ task ∷ [];
    }

abbrev pub write_bit : WriteIn → ℕ → Bool
write_bit req id = get_bitset (base64_decode req.wbitset) (id - req.chunk_start)

-- The loop of rpc_srv_write over `n` chunks from `id` on; `none` is the exit on a failed transfer.
module _ (req : WriteIn) (bulk_size : ℕ) (transfer_ok : Task → Bool) where
  unfoldable pub write_loop : Loop → ℕ → ℕ → Option Loop
  write_loop l id zero = some l
  write_loop l id (suc n) = elim (ltb l.chnk_id_curr req.chunk_n) [
    | false ↦ some l
    | true ↦ elim (write_bit req id) [
      | false ↦ write_loop l (id + 1) n
      | true ↦ elim (transfer_ok (chunk_task req bulk_size l id)) [
        | false ↦ none
        | true ↦ write_loop (add_task req bulk_size l id) (id + 1) n
      ]
    ]
  ]

  unfoldable pub write_tasks : Option Loop
  write_tasks =
      write_loop (init_loop req bulk_size) req.chunk_start (req.chunk_end + 1 - req.chunk_start)

-- The loop of rpc_srv_read, which transfers nothing before its tasks have ended.
module _ (req : WriteIn) (bulk_size : ℕ) where
  unfoldable pub read_loop : Loop → ℕ → ℕ → Loop
  read_loop l id zero = l
  read_loop l id (suc n) = elim (ltb l.chnk_id_curr req.chunk_n && write_bit req id) [
    | true ↦ read_loop (add_task req bulk_size l id) (id + 1) n
    | false ↦ if ltb l.chnk_id_curr req.chunk_n then read_loop l (id + 1) n else l
  ]

  unfoldable pub read_tasks : Loop
  read_tasks =
      read_loop (init_loop req bulk_size) req.chunk_start (req.chunk_end + 1 - req.chunk_start)

-- What a tasklet leaves in its eventual, `failed e` for the negative number; `no_eventual` is an
-- eventual that cannot be waited for.
pub data TaskResult : Type 0 where
  no_eventual : TaskResult
  failed : ℕ → TaskResult
  done : ℕ → TaskResult

-- The loop of wait_for_tasks: the error and the bytes written so far, a size_t.
unfoldable pub collect_writes : List TaskResult → ℕ × ℕ → ℕ × ℕ
collect_writes [] r = r
collect_writes (no_eventual ∷ rest) (io_err, total) = collect_writes rest (eio, total)
collect_writes (failed e ∷ rest) (io_err, total) =
    collect_writes rest ((if eqb io_err 0 then e else io_err), total)
collect_writes (done n ∷ rest) (io_err, total) =
    collect_writes rest (io_err, (if eqb io_err 0 then add64 total n else total))

unfoldable pub wait_for_tasks : List TaskResult → ℕ × ℕ
wait_for_tasks results =
    let (io_err, total) = collect_writes results (0, 0) in
    (io_err, (if eqb io_err 0 then total else 0))

abbrev pub enoent : ℕ
enoent = 2

-- The loop of wait_for_tasks_and_push_back: a chunk file that does not exist reads as nothing, and
-- what was read is pushed to the client.
module _ (push_ok : Task → ℕ → Bool) where
  unfoldable pub push_back : List (Task × TaskResult) → ℕ × ℕ → ℕ × ℕ
  push_back [] r = r
  push_back ((task, no_eventual) ∷ rest) (io_err, total) = push_back rest (eio, total)
  push_back ((task, failed e) ∷ rest) (io_err, total) =
      push_back rest ((if eqb io_err 0 && not (eqb e enoent) then e else io_err), total)
  push_back ((task, done n) ∷ rest) (io_err, total) = push_back rest (
      if not (eqb io_err 0)
      then (io_err, total)
      else if eqb n 0
      then (io_err, total)
      else if push_ok task n
      then (io_err, add64 total n)
      else (ebusy, total))

  unfoldable pub wait_for_tasks_and_push_back : List (Task × TaskResult) → ℕ × ℕ
  wait_for_tasks_and_push_back results =
      let (io_err, total) = push_back results (0, 0) in
      (io_err, (if eqb io_err 0 then total else 0))

module _ (run : Task → TaskResult) where
  abbrev pub results : List Task → List TaskResult
  results [] = []
  results (t ∷ ts) = run t ∷ results ts

  abbrev pub write_reply : Option Loop → ℕ × ℕ
  write_reply none = (ebusy, 0)
  write_reply (some l) = wait_for_tasks (results l.tasks)

  unfoldable pub rpc_srv_write : (Task → Bool) → WriteIn → ℕ → ℕ × ℕ
  rpc_srv_write transfer_ok req bulk_size = write_reply (write_tasks req bulk_size transfer_ok)
