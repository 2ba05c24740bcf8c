-- ===== src/Tests/Truncation.antt =====
-- Examples for truncation, and for the result of a write: src/client/rpc/forward_data.cpp,
-- src/daemon/ops/data.cpp and src/daemon/backend/data/chunk_storage.cpp.
use gekko_fs.Base.{
  ℕ, ◌+◌, ◌%◌, ◌^◌, ◌≡◌, refl, true, List, [], ◌∷◌, some, arith, eqb, if◌then◌else◌, map, sum,
}
use gekko_fs.Base.Eq.{nat_eq}
use gekko_fs.Base.Dict.{lookup}
use gekko_fs.Data.Write.{contains, reply, write_result}
use gekko_fs.Data.Write.Replies.{write_result-replies}
use gekko_fs.Data.Truncate.{Chunks, truncate_hosts, truncate_abt}
use gekko_fs.Data.Truncate.Contacts.{truncate_hosts-reached, truncate_hosts-none}
use gekko_fs.Data.Truncate.Chunks.{IsCut, truncate_abt-cuts}

write_result-replies_example :
    write_result 100 0 (map (reply 0) (60 ∷ 40 ∷ []))
    ≡ (0, (if eqb 0 0 then sum (60 ∷ 40 ∷ []) % 2 ^ 64 else 100))
write_result-replies_example = write_result-replies 100 0 (60 ∷ 40 ∷ [])

abbrev by_turns : ℕ → ℕ → ℕ
by_turns chunk_id copy = (chunk_id + copy) % 3

truncate_hosts-reached_example :
    (hosts : List ℕ) × (truncate_hosts by_turns 5000000 1000000 0 ≡ some hosts)
    × (contains (by_turns 4 0) hosts ≡ true)
truncate_hosts-reached_example =
    truncate_hosts-reached by_turns 5000000 1000000 0 4 0 (omega arith) (omega arith) (omega arith)
      (omega arith) (omega arith) (omega arith)

-- A file of four million bytes that is cut by 1000 bytes: no daemon hears of it.
truncate_hosts-none_example : truncate_hosts by_turns 4000000 3999000 0 ≡ some []
truncate_hosts-none_example =
    truncate_hosts-none by_turns 4000000 3999000 0 (omega arith) (omega arith) (omega arith)

abbrev two_chunks : Chunks
two_chunks = (1, 7 ∷ 8 ∷ 9 ∷ []) ∷ (3, 5 ∷ []) ∷ []

truncate_abt-cuts_example :
    (after : Chunks) × (truncate_abt (λ c. true) (λ c. 0) 524290 (some two_chunks)
      ≡ (0, some after))
    × IsCut (λ c. true) (λ c. refl) 524290 two_chunks after
unfolding lookup
truncate_abt-cuts_example =
    truncate_abt-cuts (λ c. true) (λ c. refl) (λ c. 0) 524290 two_chunks (7 ∷ 8 ∷ 9 ∷ [])
      (omega arith) refl (λ inside. refl)
