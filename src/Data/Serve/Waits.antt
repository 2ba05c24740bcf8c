-- ===== src/Data/Serve/Waits.antt =====
-- The result of ChunkWriteOperation::wait_for_tasks in src/daemon/ops/data.cpp.
use gekko_fs.Base.{
  ℕ, suc, ◌+◌, ◌%◌, ◌^◌, ◌<◌, ◌≡◌, refl, sym, ap, ◌∙◌, arith, eqb, if◌then◌else◌, List, [], ◌∷◌,
  ◌++◌, eqb, append-nil, sum, map, All,
}
use gekko_fs.Base.Words.{add64, u64_mod}
use gekko_fs.Data.Serve.{TaskResult, no_eventual, failed, done, collect_writes, wait_for_tasks}

pub collect_writes-done :
    (ns : List ℕ) (rest : List TaskResult) (total : ℕ)
    → total < u64_mod
    → collect_writes (map done ns ++ rest) (0, total)
      ≡ collect_writes rest (0, (total + sum ns) % u64_mod)
unfolding collect_writes
collect_writes-done [] rest total word = ap (λ (m : ℕ). collect_writes rest (0, m)) (omega arith)
collect_writes-done (n ∷ ns) rest total word =
    collect_writes-done ns rest (add64 total n) (omega arith)
    ∙ ap (λ (m : ℕ). collect_writes rest (0, m)) (omega arith)

abbrev pub WasWaited : TaskResult → Type 0
WasWaited no_eventual = ⊥
WasWaited (failed e) = Unit
WasWaited (done n) = Unit

collect_writes-failed :
    (rest : List TaskResult) (e total : ℕ)
    → All WasWaited rest
    → collect_writes rest (suc e, total) ≡ (suc e, total)
unfolding collect_writes
collect_writes-failed [] e total h = refl
collect_writes-failed (no_eventual ∷ rest) e total h = absurd h.0
collect_writes-failed (failed d ∷ rest) e total h =
    ap (λ (m : ℕ). collect_writes rest (m, total)) (ground arith)
    ∙ collect_writes-failed rest e total h.1
collect_writes-failed (done n ∷ rest) e total h =
    ap (λ (m : ℕ). collect_writes rest (suc e, m)) (ground arith)
    ∙ collect_writes-failed rest e total h.1

abbrev reply_of : ℕ × ℕ → ℕ × ℕ
reply_of (io_err, total) = (io_err, (if eqb io_err 0 then total else 0))

-- If every tasklet of a write returned a size then wait_for_tasks gives their sum modulo 2^64 and
-- no error; if one failed then it gives the first error and size 0, as long as every eventual
-- behind it could be waited for.
pub wait_for_tasks-eq :
    (ns : List ℕ) (e : ℕ) (rest : List TaskResult)
    → All WasWaited rest
    → (wait_for_tasks (map done ns) ≡ (0, sum ns % 2 ^ 64))
      × (wait_for_tasks (map done ns ++ failed (suc e) ∷ rest) ≡ (suc e, 0))
unfolding wait_for_tasks collect_writes
wait_for_tasks-eq ns e rest h = (
  ap reply_of (
      ap (λ (rs : List TaskResult). collect_writes rs (0, 0)) (sym (append-nil (map done ns)))
      ∙ collect_writes-done ns [] 0 (omega arith)
      ∙ ap (λ (m : ℕ). (0, m)) (omega arith)),
  ap reply_of (
        collect_writes-done ns (failed (suc e) ∷ rest) 0 (omega arith)
        ∙ collect_writes-failed rest e ((0 + sum ns) % u64_mod) h)
      ∙ ap (λ (m : ℕ). (suc e, m)) (ground arith),
)
