-- ===== src/Daemon/ChunkFiles/Loops.antt =====
-- The loops of write_chunk and read_chunk in src/daemon/backend/data/chunk_storage.cpp, against what
-- they write and read in one go.
use gekko_fs.Base.{
  ℕ, zero, suc, ◌+◌, ◌-◌, ◌≤◌, ◌<◌, ◌≡◌, refl, sym, ap, ◌∙◌, subst, ◌⊎◌, inl, inr, arith, List, [],
  ◌∷◌, length, take, drop, some,
}
use Prim.Native.Nat.add
use gekko_fs.Base.Slices.{take-length, length-drop, drop-all, drop-add, take-split}
use gekko_fs.Base.Eq.{Bytes}
use gekko_fs.Daemon.ChunkFiles.{
  over, write_at, CallOutcome, moved, again, failed, done, pwrite, pwrite_loop, pread_loop,
}

-- The outcomes of a loop with `rest` bytes left: no call fails, a call moves at most what is left,
-- and in the end all is moved. Interrupted calls and short ones may come in any order.
abbrev pub Completes : List CallOutcome → ℕ → Type 0
Completes [] rest = ⊥
Completes (moved n ∷ outcomes) rest =
    (n ≡ rest) ⊎ ((0 < n) × (n < rest) × Completes outcomes (rest - n))
Completes (again ∷ outcomes) rest = Completes outcomes rest
Completes (failed e ∷ outcomes) rest = ⊥

over-split :
    (n : ℕ) (buf content : Bytes)
    → n ≤ length buf
    → write_at n (drop n buf) (over (take n buf) content) ≡ over buf content
unfolding over write_at
over-split zero buf content h = refl
over-split (suc n) [] content h = absurd (omega arith)
over-split (suc n) (b ∷ buf) [] h = ap (◌∷◌ b) (over-split n buf [] (omega arith))
over-split (suc n) (b ∷ buf) (c ∷ content) h = ap (◌∷◌ b) (over-split n buf content (omega arith))

-- Writing the first bytes and then the others behind them writes all.
pub write_at-split :
    (offset n : ℕ) (buf content : Bytes)
    → n ≤ length buf
    → write_at (offset + n) (drop n buf) (write_at offset (take n buf) content)
      ≡ write_at offset buf content
unfolding write_at
write_at-split zero n buf content h =
    ap (λ (m : ℕ). write_at m (drop n buf) (over (take n buf) content)) (add.zero n)
    ∙ over-split n buf content h
write_at-split (suc offset) n buf [] h =
    ap (λ (m : ℕ). write_at m (drop n buf) (0 ∷ write_at offset (take n buf) [])) (add.suc offset n)
    ∙ ap (◌∷◌ 0) (write_at-split offset n buf [] h)
write_at-split (suc offset) n buf (c ∷ content) h =
    ap (λ (m : ℕ). write_at m (drop n buf) (c ∷ write_at offset (take n buf) content))
      (add.suc offset n)
    ∙ ap (◌∷◌ c) (write_at-split offset n buf content h)

pub write_all :
    (offset : ℕ) (buf content : Bytes)
    → 0 < length buf
    → pwrite (length buf) offset buf content ≡ write_at offset buf content
write_all offset [] content pos = absurd (omega arith)
write_all offset (b ∷ buf) content pos =
    ap (λ (bs : Bytes). write_at offset (b ∷ bs) content) (take-length buf)

-- A write in two calls is a write in one.
pwrite-split :
    (n offset : ℕ) (buf content : Bytes)
    → 0 < n
    → n < length buf
    → pwrite (length (drop n buf)) (offset + n) (drop n buf) (pwrite n offset buf content)
      ≡ pwrite (length buf) offset buf content
pwrite-split zero offset buf content pos lt = absurd (omega arith)
pwrite-split (suc n) offset buf content pos lt =
    write_all (offset + suc n) (drop (suc n) buf) (write_at offset (take (suc n) buf) content)
      (omega (arith, length-drop (suc n) buf))
    ∙ write_at-split offset (suc n) buf content (omega arith)
    ∙ sym (write_all offset buf content (omega arith))

-- The loop of write_chunk ends, with what one call of pwrite that moves all bytes would leave, if
-- no call fails, every call that moves bytes moves some and at most what is left, and in the end
-- all bytes are moved; interrupted calls may come in between.
pub pwrite_loop-pwrite :
    (outcomes : List CallOutcome) (offset : ℕ) (buf content : Bytes)
    → Completes outcomes (length buf)
    → pwrite_loop outcomes offset buf content ≡ some (done (pwrite (length buf) offset buf content))
unfolding pwrite_loop
pwrite_loop-pwrite [] offset buf content h = absurd h
pwrite_loop-pwrite (moved n ∷ outcomes) offset buf content (inl e) = ground arith
pwrite_loop-pwrite (moved n ∷ outcomes) offset buf content (inr (pos, lt, h)) = ground (
  arith,
  pwrite_loop-pwrite outcomes (offset + n) (drop n buf) (pwrite n offset buf content)
      (subst (Completes outcomes) (sym (length-drop n buf)) h),
  pwrite-split n offset buf content pos lt,
)
pwrite_loop-pwrite (again ∷ outcomes) offset [] content h = refl
pwrite_loop-pwrite (again ∷ outcomes) offset (b ∷ buf) content h =
    ground (arith, pwrite_loop-pwrite outcomes offset (b ∷ buf) content h)
pwrite_loop-pwrite (failed e ∷ outcomes) offset buf content h = absurd h

take-nothing :
    (size offset : ℕ) (content : Bytes)
    → size ≡ 0 ⊎ length content - offset ≡ 0
    → take size (drop offset content) ≡ []
take-nothing zero offset content h = refl
take-nothing (suc size) offset content h =
    ap (take (suc size)) (drop-all offset content (ground arith))

-- The loop of read_chunk ends with the bytes that the content holds there, if every call but the
-- last moves at most what is there.
abbrev pub Reads : List CallOutcome → ℕ → ℕ → Type 0
Reads [] size there = ⊥
Reads (moved n ∷ outcomes) size there =
    ((n ≡ size) × (n ≤ there))
    ⊎ ((n ≡ 0) × (there ≡ 0))
    ⊎ ((0 < n) × (n < size) × (n ≤ there) × Reads outcomes (size - n) (there - n))
Reads (again ∷ outcomes) size there = Reads outcomes size there
Reads (failed e ∷ outcomes) size there = ⊥

pub pread_loop-take :
    (outcomes : List CallOutcome) (offset size : ℕ) (content : Bytes)
    → Reads outcomes size (length content - offset)
    → pread_loop outcomes offset size content ≡ some (done (take size (drop offset content)))
unfolding pread_loop
pread_loop-take [] offset size content h = absurd h
pread_loop-take (moved zero ∷ outcomes) offset size content h =
    ap (λ (bs : Bytes). some (done bs)) (sym (take-nothing size offset content (ground arith)))
pread_loop-take (moved (suc n) ∷ outcomes) offset size content (inl (e, le)) = ground arith
pread_loop-take (moved (suc n) ∷ outcomes) offset size content (inr (inl (e, le))) =
    absurd (omega arith)
pread_loop-take (moved (suc n) ∷ outcomes) offset size content (inr (inr (pos, lt, le, h))) =
    let more =
      pread_loop-take outcomes (offset + suc n) (size - suc n) content
        (subst (Reads outcomes (size - suc n)) (omega arith) h) in
    ground (
      arith,
      more,
      take-split (suc n) size (drop offset content) (omega arith),
      drop-add offset (suc n) content,
    )
pread_loop-take (again ∷ outcomes) offset zero content h = refl
pread_loop-take (again ∷ outcomes) offset (suc size) content h =
    ground (arith, pread_loop-take outcomes offset (suc size) content h)
pread_loop-take (failed e ∷ outcomes) offset size content h = absurd h
