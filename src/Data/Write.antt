-- ===== src/Data/Write.antt =====
-- forward_write of src/client/rpc/forward_data.cpp: the assignment of chunks to hosts, the request
-- for each host, and the result. `locate` stands for the distributor's `locate_data` of the file.
-- The client's buffer is taken to be registered without an error.
-- The code under REPLICA_CHECK, which no build option turns on, is left out.
pub mod Views
pub mod Folds
pub mod Requests
pub mod Replies
pub mod Targets
use gekko_fs.Base.{
  ℕ, zero, suc, ◌+◌, ◌-◌, ◌*◌, ◌/◌, ◌%◌, Bool, true, false, not, ◌&&◌, eqb, if◌then◌else◌, List, [],
  ◌∷◌, ◌++◌, length, replicate, Option, none, some,
}
use gekko_fs.Base.Eq.{Bytes, nat_eq}
use gekko_fs.Base.Dict.{Dict, lookup, assign}
use gekko_fs.Base.Words.{add64, sub64}
use gekko_fs.Common.Arithmetic.{block_index, block_overrun, block_underrun, is_aligned}
use gekko_fs.Common.Bitset.{set_bitset}
use gekko_fs.Common.Bitset.Base64.{base64_encode}
use gekko_fs.Data.{chunksize}

-- Which chunks each host gets. A set of hosts is the list of those that were inserted.
pub record Plan : Type 0 where
  pub target_chnks : Dict ℕ (List ℕ)
  pub targets : List ℕ
  pub start_targets : List ℕ
  pub end_targets : List ℕ
  pub write_ops : Dict ℕ Bytes

abbrev pub empty_plan : Plan
empty_plan = record {
  target_chnks = [];
  targets = [];
  start_targets = [];
  end_targets = [];
  write_ops = [];
}

abbrev pub or_default {ℓ} : {A : Type ℓ} → Option A → A → A
or_default none d = d
or_default (some a) d = a

unfoldable pub contains : ℕ → List ℕ → Bool
contains h [] = false
contains h (x ∷ xs) = if eqb x h then true else contains h xs

-- The interval of chunks of one write.
pub record Span : Type 0 where
  pub chnk_start : ℕ
  pub chnk_end : ℕ

abbrev pub chnk_total : Span → ℕ
chnk_total s = s.chnk_end - s.chnk_start + 1

abbrev pub no_chunks : Span → Bytes
no_chunks s = replicate ((chnk_total s + 7) / 8) 0

abbrev pub append_target : Option (List ℕ) → List ℕ → ℕ → List ℕ
append_target none targets target = targets ++ target ∷ []
append_target (some chunks) targets target = targets

-- The body of the loop, for one chunk and one of its hosts.
unfoldable pub place_chunk : Span → ℕ → ℕ → Plan → Plan
place_chunk s chnk_id target p =
    let chunks = lookup target p.target_chnks in
    let ops = or_default (lookup target p.write_ops) (no_chunks s) in
    record {
      target_chnks = assign target (or_default chunks [] ++ chnk_id ∷ []) p.target_chnks;
      targets = append_target chunks p.targets target;
      start_targets =
          if eqb chnk_id s.chnk_start then target ∷ p.start_targets else p.start_targets;
      end_targets = if eqb chnk_id s.chnk_end then target ∷ p.end_targets else p.end_targets;
      write_ops = assign target (set_bitset ops (chnk_id - s.chnk_start)) p.write_ops;
    }

-- With no replicas copy 0 is written; otherwise copies 1 to `num_copies`.
abbrev pub first_copy : ℕ → ℕ
first_copy num_copies = if eqb num_copies 0 then 0 else 1

abbrev pub copy_count : ℕ → ℕ
copy_count num_copies = if eqb num_copies 0 then 1 else num_copies

unfoldable pub span : ℕ → ℕ → Span
span offset write_size = record {
  chnk_start = block_index offset chunksize;
  chnk_end = block_index (sub64 (add64 offset write_size) 1) chunksize;
}

module _ (locate : ℕ → ℕ → ℕ) where
  unfoldable pub place_copies : Span → ℕ → ℕ → ℕ → Plan → Plan
  place_copies s chnk_id copy zero p = p
  place_copies s chnk_id copy (suc n) p =
      place_copies s chnk_id (copy + 1) n (place_chunk s chnk_id (locate chnk_id copy) p)

  unfoldable pub place_chunks : Span → ℕ → ℕ → ℕ → Plan → Plan
  place_chunks s num_copies chnk_id zero p = p
  place_chunks s num_copies chnk_id (suc n) p =
      place_chunks s num_copies (chnk_id + 1) n
        (place_copies s chnk_id (first_copy num_copies) (copy_count num_copies) p)

  unfoldable pub plan_write : ℕ → ℕ → ℕ → Plan
  plan_write offset write_size num_copies =
      let s = span offset write_size in
      place_chunks s num_copies s.chnk_start (chnk_total s) empty_plan

-- The request to one host, `write_data::input`.
pub record WriteIn : Type 0 where
  pub offset : ℕ
  pub host_id : ℕ
  pub wbitset : Bytes
  pub chunk_n : ℕ
  pub chunk_start : ℕ
  pub chunk_end : ℕ
  pub total_chunk_size : ℕ

-- How many bytes a host gets: whole chunks, less what the first and the last one lack.
unfoldable pub total_size : Plan → ℕ → ℕ → ℕ → ℕ
total_size p offset write_size target =
    let whole = length (or_default (lookup target p.target_chnks) []) * chunksize in
    let from_start =
      if contains target p.start_targets
      then sub64 whole (block_overrun offset chunksize)
      else whole in
    if contains target p.end_targets && not (is_aligned (add64 offset write_size) chunksize)
    then sub64 from_start (block_underrun (add64 offset write_size) chunksize)
    else from_start

unfoldable pub write_request : Span → Plan → ℕ → ℕ → ℕ → WriteIn
write_request s p offset write_size target = record {
  offset = block_overrun offset chunksize;
  host_id = target;
  wbitset = base64_encode (or_default (lookup target p.write_ops) []);
  chunk_n = length (or_default (lookup target p.target_chnks) []);
  chunk_start = s.chnk_start;
  chunk_end = s.chnk_end;
  total_chunk_size = total_size p offset write_size target;
}

-- What comes of one request.
pub data Outcome : Type 0 where
  not_sent lost : Outcome
  reply : ℕ → ℕ → Outcome

abbrev pub eio : ℕ
eio = 5

abbrev pub ebusy : ℕ
ebusy = 16

-- The second loop: the last error, and the sum of the written sizes as a 64-bit word. A request that could not be
-- sent has no handle to wait for.
unfoldable pub gather : List Outcome → ℕ × ℕ → ℕ × ℕ
gather [] r = r
gather (not_sent ∷ rest) r = gather rest r
gather (lost ∷ rest) (err, size) = gather rest (eio, size)
gather (reply zero io_size ∷ rest) (err, size) = gather rest (err, add64 size io_size)
gather (reply (suc e) io_size ∷ rest) (err, size) = gather rest (suc e, size)

unfoldable pub any_not_sent : List Outcome → Bool
any_not_sent [] = false
any_not_sent (not_sent ∷ rest) = true
any_not_sent (_ ∷ rest) = any_not_sent rest

-- The error code and the written size. Without replicas the first request that cannot be sent ends
-- the write; with replicas the size is the whole size unless there was an error.
unfoldable pub write_result : ℕ → ℕ → List Outcome → ℕ × ℕ
write_result write_size num_copies outcomes =
    let (err, out_size) = gather outcomes (0, 0) in
    if any_not_sent outcomes && eqb num_copies 0
    then (ebusy, 0)
    else if not (eqb err 0)
    then (err, 0)
    else if eqb num_copies 0
    then (0, out_size)
    else (0, write_size)

module _ (locate : ℕ → ℕ → ℕ) (send : WriteIn → Outcome) where
  unfoldable pub send_all : Span → Plan → ℕ → ℕ → List ℕ → List Outcome
  send_all s p offset write_size [] = []
  send_all s p offset write_size (target ∷ targets) =
      send (write_request s p offset write_size target) ∷ send_all s p offset write_size targets

  unfoldable pub forward_write : ℕ → ℕ → ℕ → ℕ × ℕ
  forward_write offset write_size num_copies =
      let p = plan_write locate offset write_size num_copies in
      write_result write_size num_copies
        (send_all (span offset write_size) p offset write_size p.targets)
