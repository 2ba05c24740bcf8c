-- ===== src/Data/Serve/Tasks.antt =====
-- The loops of rpc_srv_write and rpc_srv_read in src/daemon/handler/srv_data.cpp, on a request that
-- describes its interval: the tasks are the parts of the interval in the chunks of this host.
use gekko_fs.Base.{
  ℕ, zero, suc, ◌+◌, ◌-◌, ◌*◌, ◌/◌, ◌%◌, ◌^◌, ◌≤◌, ◌<◌, min, ◌≡◌, refl, sym, ap, ◌∙◌, subst, ltb→lt,
  Bool, true, false, ◌⊎◌, arith, ltb, List, [], ◌∷◌, ◌++◌, length, sum, map, some, append_assoc,
  append-nil, Bool-cases, inl, inr,
}
use gekko_fs.Base.Words.{sub64}
use gekko_fs.Data.{chunksize}
use gekko_fs.Data.Write.{WriteIn}
use gekko_fs.Data.Write.Folds.{served}
use gekko_fs.Data.Serve.{
  Task, Loop, offset_transfer_size, origin_offset, chunk_task, add_task, write_bit, write_loop,
}
use gekko_fs.Data.Serve.Pieces.{piece_size, piece_start}

-- The part of the interval in chunk `c`, put at `local` of the daemon's buffer.
abbrev pub piece_task : ℕ → ℕ → ℕ → ℕ → Task
piece_task offset size c local = record {
  chunk_id = c;
  origin = piece_start offset c - offset;
  local = local;
  buffer = local;
  size = piece_size offset size c;
  file_offset = piece_start offset c - c * chunksize;
}

-- The parts one behind the other.
unfoldable pub piece_tasks : ℕ → ℕ → List ℕ → ℕ → List Task
piece_tasks offset size [] local = []
piece_tasks offset size (c ∷ cs) local =
    piece_task offset size c local ∷ piece_tasks offset size cs (local + piece_size offset size c)

-- The loop has made the tasks and used up the size.
pub record IsFinished (offset size total : ℕ) (cs : List ℕ) (before after : Loop) : Type 0 where
  pub made :
      after.tasks ≡ before.tasks ++ piece_tasks offset size cs (total - before.chnk_size_left_host)
  pub nothing_left : after.chnk_size_left_host ≡ 0

module _ (req : WriteIn) (offset size : ℕ) (f : ℕ → Bool) (some_bytes : 0 < size)
    (fits : offset + size < 2 ^ 64) (at_offset : req.offset ≡ offset % chunksize)
    (at_start : req.chunk_start ≡ offset / chunksize) where
  abbrev last : ℕ
  last = (offset + size - 1) / chunksize

  -- What the loop keeps before it looks at chunk `c`, where `rest` are the host's chunks from `c` on.
  pub record IsAt (l : Loop) (c : ℕ) (rest : List ℕ) : Type 0 where
    pub counted : l.chnk_id_curr + length rest ≡ req.chunk_n
    pub left : l.chnk_size_left_host ≡ sum (map (piece_size offset size) rest)
    pub bounded : l.chnk_size_left_host ≤ req.total_chunk_size
    pub pointer : l.chnk_ptr + l.chnk_size_left_host ≡ req.total_chunk_size
    pub word : req.total_chunk_size < 2 ^ 64
    pub full : 0 < length rest → l.transfer_size ≡ min size chunksize
    pub fresh : c ≡ offset / chunksize → l.chnk_size_left_host ≡ req.total_chunk_size

  chunk_task-eq :
      (l : Loop) (c : ℕ) (rest : List ℕ)
      → offset / chunksize ≤ c
      → c ≤ last
      → length rest ≡ 0 ⊎ c < last
      → IsAt l c (c ∷ rest)
      → chunk_task req size l c
        ≡ piece_task offset size c (req.total_chunk_size - l.chnk_size_left_host)
  unfolding chunk_task offset_transfer_size piece_size origin_offset
  chunk_task-eq l c [] lo hi e at =
      ground
        (arith, at.counted, at.left, at.bounded, at.pointer, at.full, at.fresh, at_offset, at_start)
  chunk_task-eq l c (d ∷ rest) lo hi e at =
      ground
        (arith, at.counted, at.left, at.bounded, at.pointer, at.full, at.fresh, at_offset, at_start)

  add_task-IsAt :
      (l : Loop) (c : ℕ) (rest : List ℕ)
      → offset / chunksize ≤ c
      → c ≤ last
      → length rest ≡ 0 ⊎ c < last
      → IsAt l c (c ∷ rest)
      → IsAt (add_task req size l c) (c + 1) rest
  unfolding add_task
  add_task-IsAt l c rest lo hi e at =
      let size_eq = ap (λ (t : Task). t.size) (chunk_task-eq l c rest lo hi e at) in
      record {
        counted = omega (arith, at.counted);
        left = ground (arith, size_eq, at.left, at.bounded, at.word);
        bounded = ground (arith, size_eq, at.left, at.bounded, at.word);
        pointer = ground (arith, size_eq, at.left, at.bounded, at.word, at.pointer);
        word = at.word;
        full = ground (arith, at.full, at.counted);
        fresh = omega arith;
      }

  add_task-IsFinished :
      (l l' : Loop) (c : ℕ) (rest : List ℕ)
      → offset / chunksize ≤ c
      → c ≤ last
      → length rest ≡ 0 ⊎ c < last
      → IsAt l c (c ∷ rest)
      → IsFinished offset size req.total_chunk_size rest (add_task req size l c) l'
      → IsFinished offset size req.total_chunk_size (c ∷ rest) l l'
  unfolding add_task piece_tasks
  add_task-IsFinished l l' c rest lo hi e at fin =
      let here : Task = piece_task offset size c (req.total_chunk_size - l.chnk_size_left_host) in
      let task_eq = chunk_task-eq l c rest lo hi e at in
      let next = add_task-IsAt l c rest lo hi e at in
      record {
        made =
            fin.made
            ∙ append_assoc l.tasks (chunk_task req size l c ∷ []) (piece_tasks offset size rest _)
            ∙ ap
                (λ (t : Task).
                  l.tasks
                  ++ t
                    ∷ piece_tasks offset size rest
                        (req.total_chunk_size - sub64 l.chnk_size_left_host t.size))
                task_eq
            ∙ ap (λ (m : ℕ). l.tasks ++ here ∷ piece_tasks offset size rest m)
                (omega (arith, at.left, at.bounded, at.word));
        nothing_left = fin.nothing_left;
      }

  no_more :
      (l : Loop) (rest : List ℕ)
      → length rest ≡ 0
      → sum (map (piece_size offset size) rest) ≡ l.chnk_size_left_host
      → IsFinished offset size req.total_chunk_size rest l l
  unfolding piece_tasks
  no_more l [] e h = record { made = sym (append-nil l.tasks); nothing_left = sym h }
  no_more l (c ∷ rest) e h = absurd (omega arith)

  served-yes : (c n : ℕ) → f c ≡ true → served f c (suc n) ≡ c ∷ served f (c + 1) n
  unfolding served
  served-yes c n e = rw e refl

  served-no : (c n : ℕ) → f c ≡ false → served f c (suc n) ≡ served f (c + 1) n
  unfolding served
  served-no c n e = rw e refl

  nothing_behind : (c n : ℕ) → c + suc n ≡ last + 1 → length (served f (c + 1) n) ≡ 0 ⊎ c < last
  unfolding served
  nothing_behind c zero h = inl refl
  nothing_behind c (suc n) h = inr (omega arith)

  skip-IsAt :
      (l : Loop) (c : ℕ) (rest : List ℕ)
      → offset / chunksize ≤ c
      → IsAt l c rest
      → IsAt l (c + 1) rest
  skip-IsAt l c rest lo at = record {
    counted = at.counted;
    left = at.left;
    bounded = at.bounded;
    pointer = at.pointer;
    word = at.word;
    full = at.full;
    fresh = omega arith;
  }

  module _ (transfer_ok : Task → Bool) (all_ok : (t : Task) → transfer_ok t ≡ true)
      (bits : (c : ℕ) → offset / chunksize ≤ c → c ≤ last → write_bit req c ≡ f c) where
    write_loop-take :
        (l : Loop) (c n : ℕ)
        → l.chnk_id_curr < req.chunk_n
        → write_bit req c ≡ true
        → write_loop req size transfer_ok l c (suc n)
          ≡ write_loop req size transfer_ok (add_task req size l c) (c + 1) n
    unfolding write_loop
    write_loop-take l c n more bit = ground (arith, all_ok (chunk_task req size l c))

    write_loop-skip :
        (l : Loop) (c n : ℕ)
        → l.chnk_id_curr < req.chunk_n
        → write_bit req c ≡ false
        → write_loop req size transfer_ok l c (suc n) ≡ write_loop req size transfer_ok l (c + 1) n
    unfolding write_loop
    write_loop-skip l c n more bit = ground arith

    write_loop-end :
        (l : Loop) (c n : ℕ)
        → req.chunk_n ≤ l.chnk_id_curr
        → write_loop req size transfer_ok l c (suc n) ≡ some l
    unfolding write_loop
    write_loop-end l c n over = ground arith

    abbrev pub Finishes : Loop → ℕ → ℕ → List ℕ → Type 0
    Finishes l c n cs =
        (l' : Loop) × (write_loop req size transfer_ok l c n ≡ some l')
        × IsFinished offset size req.total_chunk_size cs l l'

    pub write_loop-served :
        (l : Loop) (c n : ℕ)
        → offset / chunksize ≤ c
        → c + n ≡ last + 1
        → IsAt l c (served f c n)
        → Finishes l c n (served f c n)
    unfolding write_loop served
    write_loop-served l c zero lo h at = (l, refl, no_more l [] refl (sym at.left))
    write_loop-served l c (suc n) lo h at = elim (Bool-cases (f c)) [
      | inl e ↦
          let at' = subst (IsAt l c) (served-yes c n e) at in
          let next =
            add_task-IsAt l c (served f (c + 1) n) lo (omega arith) (nothing_behind c n h) at' in
          let (l', run, fin) =
            write_loop-served (add_task req size l c) (c + 1) n (omega arith) (omega arith) next in
          subst (Finishes l c (suc n)) (sym (served-yes c n e)) (
            l',
            write_loop-take l c n (omega (arith, at'.counted)) (bits c lo (omega arith) ∙ e) ∙ run,
            add_task-IsFinished l l' c (served f (c + 1) n) lo (omega arith) (nothing_behind c n h)
                at' fin,
          )
      | inr e ↦
          let at' = subst (IsAt l c) (served-no c n e) at in
          subst (Finishes l c (suc n)) (sym (served-no c n e))
            (elim (Bool-cases (ltb l.chnk_id_curr req.chunk_n)) [
              | inl more ↦
                  let (l', run, fin) =
                    write_loop-served l (c + 1) n (omega arith) (omega arith)
                      (skip-IsAt l c (served f (c + 1) n) lo at') in
                  (
                    l',
                    write_loop-skip l c n (ltb→lt l.chnk_id_curr req.chunk_n more)
                          (bits c lo (omega arith) ∙ e)
                        ∙ run,
                    fin,
                  )
              | inr over ↦ (
                l,
                write_loop-end l c n (ground arith),
                no_more l (served f (c + 1) n) (ground (arith, at'.counted)) (sym at'.left),
              )
            ])
    ]
