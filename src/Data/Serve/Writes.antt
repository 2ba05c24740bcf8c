-- ===== src/Data/Serve/Writes.antt =====
-- A write from end to end: the request of forward_write (src/client/rpc/forward_data.cpp) at
-- rpc_srv_write (src/daemon/handler/srv_data.cpp), and the sum of its tasks (src/daemon/ops/data.cpp).
use gekko_fs.Base.{
  subst, ℕ, ◌+◌, ◌-◌, ◌/◌, ◌%◌, ◌^◌, ◌≤◌, ◌<◌, ◌≡◌, refl, sym, ap, ap₂, ◌∙◌, Bool, true, arith,
  List, [], ◌∷◌, map, some, All,
}
use gekko_fs.Data.{chunksize}
use gekko_fs.Data.Write.{WriteIn, span, chnk_total, first_copy, copy_count, write_request}
use gekko_fs.Data.Write.Views.{AreApart}
use gekko_fs.Data.Write.Folds.{is_served, length-served, All-served}
use gekko_fs.Data.Write.Requests.{
  request, host_chunks, chunk_n-request, wbitset-request, total-request,
}
use gekko_fs.Data.Serve.{
  Task, Loop, init_loop, write_loop, write_tasks, TaskResult, done, wait_for_tasks, results,
  write_reply, rpc_srv_write,
}
use gekko_fs.Data.Serve.Pieces.{piece_size, chnk_start-span, chnk_end-span, sum-served, overrun-eq}
use gekko_fs.Data.Serve.Tasks.{IsAt, piece_task, piece_tasks, write_loop-served}
use gekko_fs.Data.Serve.Placed.{IsPlaced, piece_tasks-IsPlaced}
use gekko_fs.Data.Serve.Waits.{wait_for_tasks-eq}

results-piece_tasks :
    (run : Task → TaskResult) (offset size local : ℕ) (cs : List ℕ)
    → ((t : Task) → run t ≡ done t.size)
    → results run (piece_tasks offset size cs local) ≡ map done (map (piece_size offset size) cs)
unfolding piece_tasks
results-piece_tasks run offset size local [] h = refl
results-piece_tasks run offset size local (c ∷ cs) h =
    ap₂ ◌∷◌ (h (piece_task offset size c local))
      (results-piece_tasks run offset size (local + piece_size offset size c) cs h)

module _ (locate : ℕ → ℕ → ℕ) (offset size num_copies h : ℕ) (some_bytes : 0 < size)
    (fits : offset + size < 2 ^ 64)
    (few : (offset + size - 1) / chunksize - offset / chunksize < 2 ^ 16)
    (apart : (c : ℕ)
      → AreApart locate
          (span offset size)
          h
          c
          (first_copy num_copies)
          (copy_count num_copies)) where
  abbrev req : WriteIn
  req = request locate offset size num_copies h some_bytes fits few apart

  abbrev cs : List ℕ
  cs = host_chunks locate offset size num_copies h some_bytes fits few apart

  abbrev f : ℕ → Bool
  f = is_served locate (span offset size) h num_copies

  span-start : (span offset size).chnk_start ≡ offset / chunksize
  span-start = chnk_start-span offset size some_bytes fits

  span-end : (span offset size).chnk_end ≡ (offset + size - 1) / chunksize
  span-end = chnk_end-span offset size some_bytes fits

  offset-req : req.offset ≡ offset % chunksize
  unfolding write_request
  offset-req = overrun-eq offset size some_bytes fits

  start-req : req.chunk_start ≡ offset / chunksize
  unfolding write_request
  start-req = span-start

  count-req : req.chunk_end + 1 - req.chunk_start ≡ chnk_total (span offset size)
  unfolding write_request
  count-req = omega (arith, span-start, span-end)

  total-word : req.total_chunk_size < 2 ^ 64
  total-word = omega (
    arith,
    total-request locate offset size num_copies h some_bytes fits few apart,
    sum-served offset size some_bytes fits f (span offset size).chnk_start
        (chnk_total (span offset size)) (omega (arith, span-start))
        (omega (arith, span-start, span-end)),
    length-served f (span offset size).chnk_start (chnk_total (span offset size)),
    span-start,
    span-end,
  )

  req-IsAt :
      IsAt req offset size f some_bytes fits offset-req start-req
        (init_loop req size)
        (span offset size).chnk_start
        cs
  req-IsAt = record {
    counted =
        omega (arith, chunk_n-request locate offset size num_copies h some_bytes fits few apart);
    left = total-request locate offset size num_copies h some_bytes fits few apart;
    bounded = omega arith;
    pointer = omega arith;
    word = total-word;
    full = ground arith;
    fresh = λ e. refl;
  }

  -- Of the request that a host gets for a write, the loop of rpc_srv_write makes one task for each
  -- chunk that the host serves, which holds that part of the interval, one part behind the other in
  -- the buffer, and it uses up the size, if the interval is not empty, ends below 2^64, spans at
  -- most 2^16 chunks, no chunk has two of its copies on the host, and every transfer succeeds.
  pub write_tasks-request :
      (transfer_ok : Task → Bool)
      → ((t : Task) → transfer_ok t ≡ true)
      → (l : Loop) × (write_tasks req size transfer_ok ≡ some l)
        × (l.tasks ≡ piece_tasks offset size cs 0)
        × (l.chnk_size_left_host ≡ 0)
  unfolding write_tasks write_request
  write_tasks-request transfer_ok all_ok =
      let (l, run, fin) =
        write_loop-served req offset size f some_bytes fits offset-req start-req transfer_ok all_ok
          (wbitset-request locate offset size num_copies h some_bytes fits few apart)
          (init_loop req size) (span offset size).chnk_start (chnk_total (span offset size))
          (omega (arith, span-start)) (omega (arith, span-start, span-end)) req-IsAt in
      (
        l,
        ap (write_loop req size transfer_ok (init_loop req size) req.chunk_start) count-req ∙ run,
        fin.made ∙ ap (piece_tasks offset size cs) (omega arith),
        fin.nothing_left,
      )

  chunks-InSpan : All (λ c. (offset / chunksize ≤ c) × (c ≤ (offset + size - 1) / chunksize)) cs
  chunks-InSpan =
      All-served f (offset / chunksize) ((offset + size - 1) / chunksize)
        (span offset size).chnk_start (chnk_total (span offset size)) (omega (arith, span-start))
        (omega (arith, span-start, span-end))

  -- Every task that the loop of rpc_srv_write makes of the request of a write moves bytes of the
  -- write to their own position in the file: the start of its chunk and its offset in the chunk add
  -- up to the offset of the write and its place in the buffer of the client, and it stays inside
  -- its chunk and inside the write; the conditions are that the interval is not empty, ends below
  -- 2^64, spans at most 2^16 chunks, no chunk has two of its copies on the host, and every transfer
  -- succeeds.
  pub write_tasks-IsPlaced :
      (transfer_ok : Task → Bool)
      → ((t : Task) → transfer_ok t ≡ true)
      → (l : Loop) × (write_tasks req size transfer_ok ≡ some l)
        × All (IsPlaced offset size) l.tasks
  write_tasks-IsPlaced transfer_ok all_ok =
      let (l, tasks, made, _) = write_tasks-request transfer_ok all_ok in
      (
        l,
        tasks,
        subst (All (IsPlaced offset size)) (sym made)
            (piece_tasks-IsPlaced offset size 0 cs some_bytes chunks-InSpan),
      )

  -- A daemon whose transfers and tasklets do all of their work answers the request that a host gets
  -- for a write with no error and the size that was requested, if the interval is not empty, ends
  -- below 2^64, spans at most 2^16 chunks and no chunk has two of its copies on the host.
  pub rpc_srv_write-request :
      (transfer_ok : Task → Bool) (run : Task → TaskResult)
      → ((t : Task) → transfer_ok t ≡ true)
      → ((t : Task) → run t ≡ done t.size)
      → rpc_srv_write run transfer_ok req size ≡ (0, req.total_chunk_size)
  unfolding rpc_srv_write
  rpc_srv_write-request transfer_ok run all_ok full =
      let (l, tasks, made, _) = write_tasks-request transfer_ok all_ok in
      ap (write_reply run) tasks
      ∙ ap (λ (ts : List Task). wait_for_tasks (results run ts)) made
      ∙ ap wait_for_tasks (results-piece_tasks run offset size 0 cs full)
      ∙ (wait_for_tasks-eq (map (piece_size offset size) cs) 0 [] tt).0
      ∙ ap (λ (m : ℕ). (0, m % 2 ^ 64))
          (sym (total-request locate offset size num_copies h some_bytes fits few apart))
      ∙ ap (λ (m : ℕ). (0, m)) (omega (arith, total-word))
