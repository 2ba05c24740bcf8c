-- ===== src/Client/Files/Vectors.antt =====
-- gkfs_pwritev and gkfs_writev of src/client/gkfs_functions.cpp, when the daemons accept what is
-- written.
use gekko_fs.Base.{
  if◌then◌else◌, eqb, ltb, ℕ, suc, zero, ◌+◌, ◌^◌, ◌<◌, ◌≡◌, refl, sym, ap, ◌∙◌, subst, arith,
  false, List, [], ◌∷◌, length, All, some, le→ltb_false, inl, inr, Bool-cases, eqb_iff,
}
use gekko_fs.Base.Eq.{Bytes, beq_refl, nat_eq}
use gekko_fs.Base.Integers.{ℤ, pos, negsuc, to_signed, to_unsigned}
use gekko_fs.Base.Words.{add64}
use gekko_fs.Client.FileMap.{get}
use gekko_fs.Client.Files.{
  OpenFile, Remote, ClientSettings, Client, add_off, is_minus_one, set_pos, if_open, gkfs_do_write,
}
use gekko_fs.Client.Files.Writes.{Accepts, IsKept, IsRegular, gkfs_do_write-Wrote}
use gekko_fs.Client.Files.Results.{to_int-small, eqb-ne}

module _ (r : Remote) (g : ClientSettings) where
  open r use {State}

  -- The loop over the buffers, at `position` with `written` bytes behind it.
  unfoldable pub pwritev_loop : ℕ → List Bytes → ℤ → ℤ → Client State → Client State × ℤ
  pwritev_loop ptr [] position written c = (c, written)
  pwritev_loop ptr (buf ∷ bufs) position written c =
      let (c', ret) = gkfs_do_write r g ptr buf position false c in
      let skip = pwritev_loop ptr bufs position written c in
      let more = pwritev_loop ptr bufs (add_off position ret) (add_off written ret) c' in
      if eqb (length buf) 0
      then skip
      else if is_minus_one ret
      then (c', written)
      else if ltb (to_unsigned ret) (length buf)
      then (c', add_off written ret)
      else more

  abbrev pub none_written : Client State × ℤ → Client State × ℤ
  none_written (c, pos zero) = (c, negsuc 0)
  none_written (c, n) = (c, n)

  unfoldable pub gkfs_pwritev : ℕ → List Bytes → ℤ → Client State → Client State × ℤ
  gkfs_pwritev fd iov offset c =
      if_open r g c (get c.file_map fd)
        (λ ptr. none_written (pwritev_loop ptr iov offset (pos 0) c))

  abbrev pub move_pos : ℕ → ℕ → Client State × ℤ → Client State × ℤ
  move_pos ptr position (c, pos n) = (set_pos r g ptr (add64 position n) c, pos n)
  move_pos ptr position (c, negsuc n) = (c, negsuc 0)

  unfoldable pub gkfs_writev : ℕ → List Bytes → Client State → Client State × ℤ
  gkfs_writev fd iov c = if_open r g c (get c.file_map fd) (λ ptr.
      move_pos ptr (c.files ptr).position
        (gkfs_pwritev fd iov (to_signed (c.files ptr).position) c))

-- The number of bytes of a vector of buffers.
abbrev pub total : List Bytes → ℕ
total [] = 0
total (buf ∷ bufs) = length buf + total bufs

abbrev pub AreSmall : List Bytes → Type 0
AreSmall bufs = All (λ buf. length buf < 2 ^ 31) bufs

add_off-pos : (a b : ℕ) → a + b < 2 ^ 63 → add_off (pos a) (pos b) ≡ pos (a + b)
add_off-pos a b h = ground arith

module _ (r : Remote) (g : ClientSettings) (ok : Accepts r) where
  open r use {State}

  IsKept-trans : (a b c : Client State) → IsKept r g ok a b → IsKept r g ok b c → IsKept r g ok a c
  IsKept-trans a b c p q = record {
    files = q.files ∙ p.files;
    file_map = q.file_map ∙ p.file_map;
    errno = q.errno ∙ p.errno;
  }

  -- A buffer that is written as a whole.
  pwritev_loop-more :
      (ptr : ℕ) (buf : Bytes) (bufs : List Bytes) (position : ℤ) (written : ℕ) (c : Client State)
      → 0 < length buf
      → written + length buf < 2 ^ 63
      → (gkfs_do_write r g ptr buf position false c).1 ≡ pos (length buf)
      → pwritev_loop r g ptr (buf ∷ bufs) position (pos written) c
        ≡ pwritev_loop r g ptr bufs
            (add_off position (pos (length buf)))
            (pos (written + length buf))
            (gkfs_do_write r g ptr buf position false c).0
  unfolding pwritev_loop
  pwritev_loop-more ptr buf bufs position written c some_bytes fits ret =
      rw
        (
          eqb-ne (length buf) 0 (omega arith),
          ret,
          le→ltb_false (length buf) (length buf) (omega arith),
        )
        (ap
          (λ (w : ℤ).
            pwritev_loop r g ptr bufs (add_off position (pos (length buf))) w
              (gkfs_do_write r g ptr buf position false c).0)
          (add_off-pos written (length buf) fits))

  pwritev_loop-all :
      (ptr : ℕ) (bufs : List Bytes) (position : ℤ) (written : ℕ) (c : Client State)
      → AreSmall bufs
      → written + total bufs < 2 ^ 63
      → IsRegular r g ok ptr c
      → ((pwritev_loop r g ptr bufs position (pos written) c).1 ≡ pos (written + total bufs))
        × IsKept r g ok c (pwritev_loop r g ptr bufs position (pos written) c).0
  unfolding pwritev_loop
  pwritev_loop-all ptr [] position written c small fits reg =
      (ap pos (omega arith), record { files = refl; file_map = refl; errno = refl })
  pwritev_loop-all ptr ([] ∷ bufs) position written c small fits reg =
      let (ret, kept) = pwritev_loop-all ptr bufs position written c small.1 (omega arith) reg in
      (ret ∙ ap pos (omega arith), kept)
  pwritev_loop-all ptr ((b ∷ bs) ∷ bufs) position written c small fits reg =
      let n : ℕ = length (b ∷ bs) in
      let out : Client State × ℤ = gkfs_do_write r g ptr (b ∷ bs) position false c in
      let (ret, files, file_map, errno) =
        gkfs_do_write-Wrote r g ok ptr (b ∷ bs) position false c (omega arith) reg in
      let kept : IsKept r g ok c out.0 = record {
        files = files;
        file_map = file_map;
        errno = errno;
      } in
      let (ret', kept') =
        pwritev_loop-all ptr bufs (add_off position (pos n)) (written + n) out.0 small.1
          (omega arith) (ap (λ (f : ℕ → OpenFile). (f ptr).file_type) files ∙ reg) in
      subst
        (λ (o : Client State × ℤ).
          (o.1 ≡ pos (written + total ((b ∷ bs) ∷ bufs))) × IsKept r g ok c o.0)
        (sym (
          pwritev_loop-more ptr (b ∷ bs) bufs position written c (omega arith) (omega arith)
            (ret ∙ to_int-small n small.0)))
        (ret' ∙ ap pos (omega arith), IsKept-trans c out.0 _ kept kept')

  none_written-some : (c : Client State) (n : ℕ) → 0 < n → none_written r g (c, pos n) ≡ (c, pos n)
  none_written-some c zero h = absurd (omega arith)
  none_written-some c (suc n) h = refl

  module _ (fd ptr : ℕ) (bufs : List Bytes) (c : Client State) (at : get c.file_map fd ≡ some ptr)
      (reg : IsRegular r g ok ptr c) (small : AreSmall bufs)
      (fits : (c.files ptr).position + total bufs < 2 ^ 63) where
    abbrev loop_from : ℤ → Client State × ℤ
    loop_from offset = pwritev_loop r g ptr bufs offset (pos 0) c

    gkfs_pwritev-some :
        (offset : ℤ)
        → 0 < total bufs
        → gkfs_pwritev r g fd bufs offset c ≡ ((loop_from offset).0, pos (total bufs))
    unfolding gkfs_pwritev
    gkfs_pwritev-some offset some_bytes =
        let (ret, kept) = pwritev_loop-all ptr bufs offset 0 c small (omega arith) reg in
        let n : (loop_from offset).1 ≡ pos (total bufs) = ret ∙ ap pos (omega arith) in
        rw at (
          ap (λ (x : ℤ). none_written r g ((loop_from offset).0, x)) n
          ∙ none_written-some (loop_from offset).0 (total bufs) some_bytes)

    gkfs_pwritev-none :
        (offset : ℤ)
        → total bufs ≡ 0
        → gkfs_pwritev r g fd bufs offset c ≡ ((loop_from offset).0, negsuc 0)
    unfolding gkfs_pwritev
    gkfs_pwritev-none offset no_bytes =
        let (ret, kept) = pwritev_loop-all ptr bufs offset 0 c small (omega arith) reg in
        let n : (loop_from offset).1 ≡ pos 0 = ret ∙ ap pos (omega arith) in
        rw at (ap (λ (x : ℤ). none_written r g ((loop_from offset).0, x)) n)

    -- What writev returns.
    abbrev pub vector_result : ℕ → ℤ
    vector_result zero = negsuc 0
    vector_result (suc n) = pos (suc n)

    vector_result-some : (n : ℕ) → 0 < n → vector_result n ≡ pos n
    vector_result-some zero h = absurd (omega arith)
    vector_result-some (suc n) h = refl

    -- What writev returns, where it leaves the position, and errno.
    abbrev pub Moves : Client State × ℤ → Type 0
    Moves out =
        (out.1 ≡ vector_result (total bufs))
        × ((out.0.files ptr).position ≡ (c.files ptr).position + total bufs)
        × (out.0.errno ≡ c.errno)

    abbrev moved : Client State × ℤ → Client State × ℤ
    moved out = move_pos r g ptr (c.files ptr).position out

    gkfs_writev-eq :
        gkfs_writev r g fd bufs c
        ≡ moved (gkfs_pwritev r g fd bufs (to_signed (c.files ptr).position) c)
    unfolding gkfs_writev
    gkfs_writev-eq = rw at refl

    Moves-some :
        (c' : Client State)
        → IsKept r g ok c c'
        → 0 < total bufs
        → Moves (moved (c', pos (total bufs)))
    Moves-some c' kept some_bytes = (
      sym (vector_result-some (total bufs) some_bytes),
      rw (beq_refl ptr) (omega arith),
      kept.errno,
    )

    Moves-none :
        (c' : Client State) → IsKept r g ok c c' → total bufs ≡ 0 → Moves (moved (c', negsuc 0))
    Moves-none c' kept no_bytes = (
      ap vector_result (sym no_bytes),
      ap (λ (f : ℕ → OpenFile). (f ptr).position) kept.files ∙ omega arith,
      kept.errno,
    )

    -- A writev returns the number of bytes of its buffers, or -1 if that is 0, and moves the
    -- position of the file by it, also if the file is opened to append, and errno stays, if the
    -- daemons accept every request, each buffer is below 2^31 bytes and the new position below
    -- 2^63.
    pub gkfs_writev-position : Moves (gkfs_writev r g fd bufs c)
    gkfs_writev-position =
        let offset : ℤ = to_signed (c.files ptr).position in
        let (ret, kept) = pwritev_loop-all ptr bufs offset 0 c small (omega arith) reg in
        subst Moves (sym gkfs_writev-eq) (elim (Bool-cases (eqb (total bufs) 0)) [
          | inl e ↦
              let no_bytes : total bufs ≡ 0 = (eqb_iff (total bufs) 0).0 e in
              subst (λ (o : Client State × ℤ). Moves (moved o))
                (sym (gkfs_pwritev-none offset no_bytes))
                (Moves-none (loop_from offset).0 kept no_bytes)
          | inr e ↦
              let some_bytes : 0 < total bufs = ground arith in
              subst (λ (o : Client State × ℤ). Moves (moved o))
                (sym (gkfs_pwritev-some offset some_bytes))
                (Moves-some (loop_from offset).0 kept some_bytes)
        ])
