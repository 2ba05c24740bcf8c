-- ===== src/Data/Write/Replies.antt =====
-- The result that forward_write of src/client/rpc/forward_data.cpp makes of the replies.
use gekko_fs.Base.{
  ℕ, zero, suc, ◌+◌, ◌%◌, ◌^◌, ◌<◌, ◌≡◌, ◌≢◌, refl, sym, ap, ◌∙◌, false, arith, eqb, if◌then◌else◌,
  List, [], ◌∷◌, ◌++◌, map, replicate, sum, append-nil,
}
use gekko_fs.Base.Words.{add64, u64_mod}
use gekko_fs.Data.Write.{Outcome, not_sent, reply, gather, any_not_sent, write_result}

gather-replies :
    (sizes : List ℕ) (rest : List Outcome) (size : ℕ)
    → size < u64_mod
    → gather (map (reply 0) sizes ++ rest) (0, size) ≡ gather rest (0, (size + sum sizes) % u64_mod)
unfolding gather
gather-replies [] rest size word = ap (λ (n : ℕ). gather rest (0, n)) (omega arith)
gather-replies (n ∷ sizes) rest size word =
    gather-replies sizes rest (add64 size n) (omega arith)
    ∙ ap (λ (m : ℕ). gather rest (0, m)) (omega arith)

all_sent : (sizes : List ℕ) → any_not_sent (map (reply 0) sizes) ≡ false
unfolding any_not_sent
all_sent [] = refl
all_sent (n ∷ sizes) = all_sent sizes

gather-all : (sizes : List ℕ) → gather (map (reply 0) sizes) (0, 0) ≡ (0, sum sizes % u64_mod)
unfolding gather
gather-all sizes =
    ap (λ (outcomes : List Outcome). gather outcomes (0, 0))
      (sym (append-nil (map (reply 0) sizes)))
    ∙ gather-replies sizes [] 0 (omega arith)
    ∙ ap (λ (n : ℕ). (0, n)) (omega arith)

gather-not_sent : (n : ℕ) (r : ℕ × ℕ) → gather (replicate n not_sent) r ≡ r
unfolding gather
gather-not_sent zero r = refl
gather-not_sent (suc n) r = gather-not_sent n r

-- If every host replies without an error then a write has no error, and its size, as a 64-bit word,
-- is the sum of the written sizes modulo 2^64 without replicas and the whole size with replicas.
pub write_result-replies :
    (write_size num_copies : ℕ) (sizes : List ℕ)
    → write_result write_size num_copies (map (reply 0) sizes)
      ≡ (0, (if eqb num_copies 0 then sum sizes % 2 ^ 64 else write_size))
unfolding write_result
write_result-replies write_size num_copies sizes =
    rw (gather-all sizes) (rw (all_sent sizes) (ground arith))

-- With replicas a write has no error and its whole size although no request could be sent.
pub write_result-not_sent :
    (write_size num_copies n : ℕ)
    → num_copies ≢ 0
    → write_result write_size num_copies (replicate n not_sent) ≡ (0, write_size)
unfolding write_result
write_result-not_sent write_size num_copies n replicas =
    rw (gather-not_sent n (0, 0)) (ground (arith, replicas))
