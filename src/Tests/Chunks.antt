-- ===== src/Tests/Chunks.antt =====
-- Examples for src/client/rpc/forward_data.cpp, src/daemon/handler/srv_data.cpp and
-- src/daemon/ops/data.cpp.
use gekko_fs.Base.{
  All, ℕ, ◌+◌, ◌-◌, ◌%◌, ◌^◌, ◌<◌, ◌≡◌, refl, true, false, none, List, [], ◌∷◌, ◌++◌, some, map,
  sum, arith,
}
use gekko_fs.Common.Bitset.{get_bitset}
use gekko_fs.Common.Bitset.Base64.{base64_decode}
use gekko_fs.Data.Write.{
  contains, forward_write, WriteIn, span, first_copy, copy_count, plan_write, write_request,
}
use gekko_fs.Data.Read.{is_failed, read_target, read_target-ends, read_target-stuck}
use gekko_fs.Data.Write.Views.{AreApart, serves}
use gekko_fs.Data.Write.Folds.{is_served}
use gekko_fs.Data.Write.Requests.{host_chunks, wbitset-request}
use gekko_fs.Data.Serve.{Loop, done, failed, write_tasks, wait_for_tasks, rpc_srv_write}
use gekko_fs.Data.Serve.Tasks.{piece_tasks}
use gekko_fs.Data.Serve.Placed.{IsPlaced}
use gekko_fs.Data.Serve.Whole.{serve, forward_write-whole}
use gekko_fs.Data.Serve.Waits.{wait_for_tasks-eq}
use gekko_fs.Data.Serve.Writes.{write_tasks-request, write_tasks-IsPlaced, rpc_srv_write-request}

-- Two hosts, which hold the chunks by turns.
abbrev by_turns : ℕ → ℕ → ℕ
by_turns chnk_id copy = (chnk_id + copy) % 2

-- A million bytes from 524000 on, in the chunks 0, 1 and 2.
abbrev request_1 : WriteIn
request_1 =
    write_request (span 524000 1000000) (plan_write by_turns 524000 1000000 0) 524000 1000000 1

apart_1 : (c : ℕ) → AreApart by_turns (span 524000 1000000) 1 c (first_copy 0) (copy_count 0)
unfolding serves
apart_1 c = (λ e. refl, tt)

abbrev chunks_1 : List ℕ
chunks_1 = host_chunks by_turns 524000 1000000 0 1 (omega arith) (omega arith) (omega arith) apart_1

wbitset-request_example :
    get_bitset (base64_decode request_1.wbitset) (1 - request_1.chunk_start)
    ≡ is_served by_turns (span 524000 1000000) 1 0 1
wbitset-request_example =
    wbitset-request by_turns 524000 1000000 0 1 (omega arith) (omega arith) (omega arith) apart_1 1
      (omega arith) (omega arith)

write_tasks-request_example :
    (l : Loop) × (write_tasks request_1 1000000 (λ t. true) ≡ some l)
    × (l.tasks ≡ piece_tasks 524000 1000000 chunks_1 0)
    × (l.chnk_size_left_host ≡ 0)
write_tasks-request_example =
    write_tasks-request by_turns 524000 1000000 0 1 (omega arith) (omega arith) (omega arith)
      apart_1 (λ t. true) (λ t. refl)

rpc_srv_write-request_example :
    rpc_srv_write (λ t. done t.size) (λ t. true) request_1 1000000 ≡ (0, request_1.total_chunk_size)
rpc_srv_write-request_example =
    rpc_srv_write-request by_turns 524000 1000000 0 1 (omega arith) (omega arith) (omega arith)
      apart_1 (λ t. true) (λ t. done t.size) (λ t. refl) (λ t. refl)

write_tasks-IsPlaced_example :
    (l : Loop) × (write_tasks request_1 1000000 (λ t. true) ≡ some l)
    × All (IsPlaced 524000 1000000) l.tasks
write_tasks-IsPlaced_example =
    write_tasks-IsPlaced by_turns 524000 1000000 0 1 (omega arith) (omega arith) (omega arith)
      apart_1 (λ t. true) (λ t. refl)

wait_for_tasks-eq_example :
    (wait_for_tasks (map done (10 ∷ 20 ∷ [])) ≡ (0, sum (10 ∷ 20 ∷ []) % 2 ^ 64))
    × (wait_for_tasks (map done (10 ∷ 20 ∷ []) ++ failed 28 ∷ done 5 ∷ []) ≡ (28, 0))
wait_for_tasks-eq_example = wait_for_tasks-eq (10 ∷ 20 ∷ []) 27 (done 5 ∷ []) (tt, tt)

forward_write-whole_example :
    forward_write by_turns (serve (λ t. done t.size) (λ t. true) 1000000) 524000 1000000 0
    ≡ (0, 1000000)
forward_write-whole_example =
    forward_write-whole by_turns 524000 1000000 (omega arith) (omega arith) (omega arith)
      (λ t. true) (λ t. done t.size) (λ t. refl) (λ t. refl)

host_1 : is_failed (0 ∷ []) (7 % 2) ≡ false
unfolding is_failed contains
host_1 = refl

host_0 : (copy : ℕ) → copy < 1 → contains copy (0 ∷ []) ≡ true
unfolding contains
host_0 copy h = ground arith

-- Copy n is on host n, and host 0 has failed.
read_target-ends_example :
    (t : ℕ) × (read_target (λ copy. copy) (0 ∷ []) 2 (4 ∷ 7 ∷ []) ≡ some t)
    × (contains t (0 ∷ []) ≡ false)
read_target-ends_example =
    read_target-ends (λ copy. copy) (0 ∷ []) 2 (4 ∷ []) 7 [] (omega arith) host_1

read_target-stuck_example : read_target (λ copy. copy) (0 ∷ []) 1 (4 ∷ 7 ∷ []) ≡ none
read_target-stuck_example =
    read_target-stuck (λ copy. copy) (0 ∷ []) 1 (4 ∷ 7 ∷ []) (omega arith) host_0
