-- ===== src/Data/Serve/Whole.antt =====
-- A whole write without replicas: forward_write of src/client/rpc/forward_data.cpp with rpc_srv_write
-- of src/daemon/handler/srv_data.cpp on every host.
use gekko_fs.Base.{
  ℕ, zero, suc, ◌+◌, ◌%◌, ◌-◌, ◌/◌, ◌^◌, ◌≤◌, ◌<◌, ◌≡◌, refl, ap, ap₂, ◌∙◌, fun_ext, Bool, true,
  arith, eqb, if◌then◌else◌, List, [], ◌∷◌, length, sum, map, range_from, length-range_from,
  Bool-cases, inl, inr,
}
use gekko_fs.Data.{chunksize}
use gekko_fs.Data.Write.{
  WriteIn, Span, span, chnk_total, first_copy, copy_count, Plan, plan_write, write_request, Outcome,
  reply, send_all, write_result, forward_write,
}
use gekko_fs.Data.Write.Views.{AreApart, serves}
use gekko_fs.Data.Write.Folds.{served, is_served, contains-served}
use gekko_fs.Data.Write.Requests.{total-request}
use gekko_fs.Data.Write.Replies.{write_result-replies}
use gekko_fs.Data.Write.Targets.{count, count-targets}
use gekko_fs.Data.Serve.{Task, TaskResult, done, rpc_srv_write}
use gekko_fs.Data.Serve.Pieces.{piece_size, chnk_start-span, chnk_end-span, sum-served}
use gekko_fs.Data.Serve.Writes.{rpc_srv_write-request}

sum-map_add :
    (w v : ℕ → ℕ) (ts : List ℕ) → sum (map (λ h. w h + v h) ts) ≡ sum (map w ts) + sum (map v ts)
sum-map_add w v [] = omega arith
sum-map_add w v (t ∷ ts) = omega (arith, sum-map_add w v ts)

sum-map_none :
    (x k : ℕ) (ts : List ℕ) → count x ts ≡ 0 → sum (map (λ h. if eqb h x then k else 0) ts) ≡ 0
unfolding count
sum-map_none x k [] e = refl
sum-map_none x k (t ∷ ts) e = ground (arith, sum-map_none x k ts, e)

sum-map_once :
    (x k : ℕ) (ts : List ℕ) → count x ts ≡ 1 → sum (map (λ h. if eqb h x then k else 0) ts) ≡ k
unfolding count
sum-map_once x k [] e = absurd (omega arith)
sum-map_once x k (t ∷ ts) e = ground (arith, sum-map_once x k ts, sum-map_none x k ts, e)

sum-map_zero : (ts : List ℕ) → sum (map (λ (h : ℕ). 0) ts) ≡ 0
sum-map_zero [] = refl
sum-map_zero (t ∷ ts) = omega (arith, sum-map_zero ts)

sum-served_step :
    (g : ℕ → ℕ) (f : ℕ → Bool) (c n : ℕ)
    → sum (map g (served f c (suc n))) ≡ (if f c then g c else 0) + sum (map g (served f (c + 1) n))
unfolding served
sum-served_step g f c n = elim (Bool-cases (f c)) [ inl e ↦ rw e refl | inr e ↦ rw e (omega arith) ]

-- What the hosts serve is in sum what there is, if each chunk's host is there once.
sum-hosts :
    (g : ℕ → ℕ) (f : ℕ → ℕ → Bool) (host : ℕ → ℕ) (ts : List ℕ) (c n : ℕ)
    → ((h d : ℕ) → f h d ≡ eqb h (host d))
    → ((d : ℕ) → c ≤ d → d < c + n → count (host d) ts ≡ 1)
    → sum (map (λ h. sum (map g (served (f h) c n))) ts) ≡ sum (map g (range_from c n))
unfolding served
sum-hosts g f host ts c zero same once = sum-map_zero ts
sum-hosts g f host ts c (suc n) same once =
    ap (λ (w : ℕ → ℕ). sum (map w ts))
      (fun_ext (λ h.
        sum-served_step g (f h) c n
        ∙ ap (λ (b : Bool). (if b then g c else 0) + sum (map g (served (f h) (c + 1) n)))
            (same h c)))
    ∙ sum-map_add (λ h. if eqb h (host c) then g c else 0)
        (λ h. sum (map g (served (f h) (c + 1) n))) ts
    ∙ ap₂ ◌+◌ (sum-map_once (host c) (g c) ts (once c (omega arith) (omega arith)))
        (sum-hosts g f host ts (c + 1) n same (λ d lo hi. once d (omega arith) (omega arith)))

served-all : (c n : ℕ) → served (λ d. true) c n ≡ range_from c n
unfolding served
served-all c zero = refl
served-all c (suc n) = ap (◌∷◌ c) (served-all (c + 1) n)

-- A daemon's answer, as its client sees it.
abbrev pub answer : ℕ × ℕ → Outcome
answer (err, io_size) = reply err io_size

abbrev pub serve : (Task → TaskResult) → (Task → Bool) → ℕ → WriteIn → Outcome
serve run transfer_ok size req = answer (rpc_srv_write run transfer_ok req size)

module _ (locate : ℕ → ℕ → ℕ) (offset size : ℕ) (some_bytes : 0 < size)
    (fits : offset + size < 2 ^ 64)
    (few : (offset + size - 1) / chunksize - offset / chunksize < 2 ^ 16)
    (transfer_ok : Task → Bool) (run : Task → TaskResult)
    (all_ok : (t : Task) → transfer_ok t ≡ true) (full : (t : Task) → run t ≡ done t.size) where
  abbrev s : Span
  s = span offset size

  abbrev plan : Plan
  plan = plan_write locate offset size 0

  abbrev total : ℕ → ℕ
  total h =
      sum
        (map (piece_size offset size) (served (is_served locate s h 0) s.chnk_start (chnk_total s)))

  -- One copy is on one host.
  one_copy : (h c : ℕ) → AreApart locate s h c (first_copy 0) (copy_count 0)
  unfolding serves
  one_copy h c = (λ e. refl, tt)

  is_served-eqb : (h c : ℕ) → is_served locate s h 0 c ≡ eqb h (locate c 0)
  unfolding serves
  is_served-eqb h c = ground arith

  served-host :
      (h : ℕ) → serve run transfer_ok size (write_request s plan offset size h) ≡ reply 0 (total h)
  served-host h = ap answer (
      rpc_srv_write-request locate offset size 0 h some_bytes fits few (one_copy h) transfer_ok run
        all_ok full
      ∙ ap (λ (n : ℕ). (0, n))
          (total-request locate offset size 0 h some_bytes fits few (one_copy h)))

  all_replies :
      (ts : List ℕ)
      → send_all locate (serve run transfer_ok size) s plan offset size ts
        ≡ map (reply 0) (map total ts)
  unfolding send_all
  all_replies [] = refl
  all_replies (h ∷ ts) = ap₂ ◌∷◌ (served-host h) (all_replies ts)

  span-start : s.chnk_start ≡ offset / chunksize
  span-start = chnk_start-span offset size some_bytes fits

  span-end : s.chnk_end ≡ (offset + size - 1) / chunksize
  span-end = chnk_end-span offset size some_bytes fits

  sum-pieces : sum (map (piece_size offset size) (range_from s.chnk_start (chnk_total s))) ≡ size
  sum-pieces =
      let n : ℕ = chnk_total s in
      ground (
        arith,
        ap (λ (cs : List ℕ). sum (map (piece_size offset size) cs)) (served-all s.chnk_start n),
        ap length (served-all s.chnk_start n),
        length-range_from s.chnk_start n,
        sum-served offset size some_bytes fits (λ c. true) s.chnk_start n
            (omega (arith, span-start)) (omega (arith, span-start, span-end)),
        contains-served (λ c. true) (offset / chunksize) s.chnk_start n,
        contains-served (λ c. true) ((offset + size - 1) / chunksize) s.chnk_start n,
        span-start,
        span-end,
      )

  sum-totals : sum (map total plan.targets) ≡ size
  sum-totals =
      sum-hosts (piece_size offset size) (λ h. is_served locate s h 0) (λ c. locate c 0)
        plan.targets s.chnk_start (chnk_total s) is_served-eqb
        (λ d lo hi. count-targets locate offset size d lo (omega (arith, span-start, span-end, hi)))
      ∙ sum-pieces

  -- A write without replicas whose requests are served by rpc_srv_write, on hosts whose transfers
  -- and tasklets do all of their work, has no error and writes its whole size, wherever the
  -- distributor puts the chunks, if it is not empty, ends below 2^64 and spans at most 2^16 chunks.
  pub forward_write-whole :
      forward_write locate (serve run transfer_ok size) offset size 0 ≡ (0, size)
  unfolding forward_write
  forward_write-whole =
      ap (write_result size 0) (all_replies plan.targets)
      ∙ write_result-replies size 0 (map total plan.targets)
      ∙ ap (λ (n : ℕ). (0, n % 2 ^ 64)) sum-totals
      ∙ ap (λ (n : ℕ). (0, n)) (omega (arith, fits))
