-- ===== src/Data/Serve/Placed.antt =====
-- The parts of an interval, against positions in the file and in the client's buffer. The tasks are
-- those of rpc_srv_write in src/daemon/handler/srv_data.cpp.
use gekko_fs.Base.{ℕ, ◌+◌, ◌-◌, ◌*◌, ◌/◌, ◌≤◌, ◌<◌, ◌≡◌, ◌↔◌, arith, List, [], ◌∷◌, All}
use gekko_fs.Data.{chunksize}
use gekko_fs.Data.Serve.{Task}
use gekko_fs.Data.Serve.Pieces.{piece_size}
use gekko_fs.Data.Serve.Tasks.{piece_task, piece_tasks}

-- Byte i of a write lies in the part of chunk d exactly if d is the chunk of its position in the
-- file.
pub piece_task-covers :
    (offset size d local i : ℕ)
    → i < size
    → (((piece_task offset size d local).origin ≤ i)
        × (i < (piece_task offset size d local).origin + (piece_task offset size d local).size))
      ↔ (d ≡ (offset + i) / chunksize)
unfolding piece_size
piece_task-covers offset size d local i h = ground arith

-- The task moves bytes of the write, from their place in the client's buffer to that in one chunk.
abbrev pub IsPlaced : ℕ → ℕ → Task → Type 0
IsPlaced offset size t =
    (t.chunk_id * chunksize + t.file_offset ≡ offset + t.origin)
    × (t.file_offset + t.size ≤ chunksize)
    × (t.origin + t.size ≤ size)

pub piece_tasks-IsPlaced :
    (offset size local : ℕ) (cs : List ℕ)
    → 0 < size
    → All (λ c. (offset / chunksize ≤ c) × (c ≤ (offset + size - 1) / chunksize)) cs
    → All (IsPlaced offset size) (piece_tasks offset size cs local)
unfolding piece_tasks piece_size
piece_tasks-IsPlaced offset size local [] pos h = tt
piece_tasks-IsPlaced offset size local (c ∷ cs) pos h = (
  (omega (arith, h.0), omega (arith, h.0), omega (arith, h.0)),
  piece_tasks-IsPlaced offset size (local + piece_size offset size c) cs pos h.1,
)
