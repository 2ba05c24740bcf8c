-- ===== src/Daemon/Handlers/Sizes.antt =====
-- The metadata handlers that change the size of a file, against their promise. The handlers are in
-- src/daemon/handler/srv_metadata.cpp.
use gekko_fs.Base.{
  ℕ, ◌+◌, ◌^◌, ◌<◌, ◌≡◌, refl, ap, ◌∙◌, max, Bool, true, false, arith, if◌then◌else◌, Option, some,
  Bool-cases, inl, inr, subst,
}
use gekko_fs.Base.Eq.{Bytes, ◌==◌, bytes_eq, beq_refl}
use gekko_fs.Base.Words.{add64}
use gekko_fs.Base.Integers.{ℤ, pos, negsuc, IsInt64}
use gekko_fs.Common.Metadata.{Metadata, Config, serialize}
use gekko_fs.Common.Metadata.RoundTrip.{kept, IsInRange}
use gekko_fs.Daemon.Merge.{increase_size, decrease_size, update_time, serialize_operand}
use gekko_fs.Data.Write.{eio}
use gekko_fs.Daemon.Results.{Failure, Result, ok, M, then_run, ◌>>◌, return, finish, handle}
use gekko_fs.Daemon.Store.{found, RocksDb, after_merge}
use gekko_fs.Daemon.Store.Merges.{
  InRange, text_of, kept-IsInRange, after_merge-increase_size, after_merge-decrease_size,
  after_merge-update_time,
}
use gekko_fs.Daemon.Store.Backend.{Store, merge_impl, touch, increase_size_impl, decrease_size_impl}
use gekko_fs.Daemon.Store.Files.{update_size}
use gekko_fs.Daemon.Handlers.{read_failed, rpc_srv_decr_size, rpc_srv_update_metadentry_size}
use gekko_fs.Daemon.Handlers.Spec.{Files, store, resized, touched}
use gekko_fs.Daemon.Handlers.Holds.{Accepts, Holds, merge-Holds}

pub resized-IsInRange :
    (c : Config) (n : ℕ) (md : Metadata) → n < 2 ^ 63 → IsInRange md → IsInRange (resized c n md)
resized-IsInRange c n md h range =
    let (mode, size, atime, mtime, ctime, links, blocks, target, rename, plain) =
      kept-IsInRange c md range in
    (mode, h, atime, mtime, ctime, links, blocks, target, rename, plain)

retimed-IsInRange :
    (c : Config) (now : ℤ) (md : Metadata)
    → IsInt64 now
    → IsInRange md
    → IsInRange (record (kept c md) { mtime = now })
retimed-IsInRange c now md h range =
    let (mode, size, atime, mtime, ctime, links, blocks, target, rename, plain) =
      kept-IsInRange c md range in
    (mode, size, atime, h, ctime, links, blocks, target, rename, plain)

-- The second of two writes to a path is the one that stays.
store-store :
    (k : Bytes) (a b : Option Metadata) (files : Files) (j : Bytes)
    → store k a (store k b files) j ≡ store k a files j
store-store k a b files j = elim (Bool-cases (k == j)) [
  | inl here ↦ rw here refl
  | inr other ↦ rw other refl
]

pub store_self : (k : Bytes) (a : Option Metadata) (files : Files) → store k a files k ≡ a
store_self k a files = rw (beq_refl k) refl

module _ {S A B : Type 0} (good : A → B) (bad : Failure → B) (m n : M S (Unit {0}))
    {s s₁ s₂ : S} where
  pub two_steps :
      m s ≡ (ok tt, s₁)
      → n s₁ ≡ (ok tt, s₂)
      → (a : A) → handle good bad (m >> (n >> return a)) s ≡ (good a, s₂)
  two_steps e₁ e₂ a =
      ap (λ (r : Result (Unit {0}) × S). finish good bad (then_run r (λ _. n >> return a))) e₁
      ∙ ap (λ (r : Result (Unit {0}) × S). finish good bad (then_run r (λ _. return a))) e₂

module _ {S B : Type 0} (good : Unit {0} → B) (bad : Failure → B) (m n : M S (Unit {0}))
    {s s₁ s₂ : S} where
  two_steps_end :
      m s ≡ (ok tt, s₁) → n s₁ ≡ (ok tt, s₂) → handle good bad (m >> n) s ≡ (good tt, s₂)
  two_steps_end e₁ e₂ =
      ap (λ (r : Result (Unit {0}) × S). finish good bad (then_run r (λ _. n))) e₁
      ∙ ap (finish good bad) e₂

module _ {c : Config} (rdb : RocksDb c) (accepts : Accepts rdb) where
  Holds-ext :
      (s : Store rdb) (files files' : Files)
      → ((j : Bytes) → files j ≡ files' j)
      → Holds rdb s files
      → Holds rdb s files'
  Holds-ext s files files' same holds = record {
    value = λ k. holds.value k ∙ ap (text_of c) (same k);
    range = λ k. subst InRange (same k) (holds.range k);
  }

  retimed-Holds :
      (b : Bool) (s : Store rdb) (files : Files) (k : Bytes) (md : Metadata) (now : ℤ)
      → IsInt64 now
      → IsInRange md
      → Holds rdb s (store k (some md) files)
      → (s' : Store rdb) × ((if b
              then merge_impl rdb k (serialize_operand (update_time now))
              else return tt)
            s
          ≡ (ok tt, s'))
        × Holds rdb s' (store k (some (if b then record (kept c md) { mtime = now } else md)) files)
  retimed-Holds false s files k md now int64 range holds = (s, refl, holds)
  retimed-Holds true s files k md now int64 range holds =
      let entry : Option Metadata = some (record (kept c md) { mtime = now }) in
      let (s', e, holds') =
        merge-Holds rdb accepts s (store k (some md) files) k (serialize_operand (update_time now))
          entry holds
          (ap
              (λ (o : Option Metadata).
                after_merge c (serialize_operand (update_time now)) (text_of c o))
              (store_self k (some md) files)
            ∙ after_merge-update_time c md range now int64)
          (retimed-IsInRange c now md int64 range) in
      (s', e, Holds-ext s' _ (store k entry files) (store-store k entry (some md) files) holds')

  -- The time of modification of a record that was just written.
  touch-Holds :
      (s : Store rdb) (files : Files) (k : Bytes) (md : Metadata) (now : ℤ)
      → IsInt64 now
      → IsInRange md
      → Holds rdb s (store k (some md) files)
      → (s' : Store rdb) × (touch rdb k now s ≡ (ok tt, s'))
        × Holds rdb s' (store k (some (touched c now md)) files)
  unfolding touch
  touch-Holds = retimed-Holds c.use_mtime

  module _ (s : Store rdb) (files : Files) (k : Bytes) (md : Metadata) (now : ℤ)
      (holds : Holds rdb s files) (here : files k ≡ some md) (int64 : IsInt64 now) where
    range_here : IsInRange md
    range_here = subst InRange here (holds.range k)

    -- A merge that sets the size, then the time of modification.
    size-Holds :
        (op : Bytes) (n : ℕ)
        → n < 2 ^ 63
        → after_merge c op (found (serialize c md)) ≡ found (serialize c (resized c n md))
        → (s₁ s₂ : Store rdb) × (merge_impl rdb k op s ≡ (ok tt, s₁))
          × (touch rdb k now s₁ ≡ (ok tt, s₂))
          × Holds rdb s₂ (store k (some (touched c now (resized c n md))) files)
    size-Holds op n fits law =
        let range : IsInRange (resized c n md) = resized-IsInRange c n md fits range_here in
        let (s₁, e₁, holds₁) =
          merge-Holds rdb accepts s files k op (some (resized c n md)) holds
            (ap (λ (o : Option Metadata). after_merge c op (text_of c o)) here ∙ law) range in
        let (s₂, e₂, holds₂) = touch-Holds s₁ files k (resized c n md) now int64 range holds₁ in
        (s₁, s₂, e₁, e₂, holds₂)

    pub grow-Holds :
        (merge_id size offset : ℕ)
        → offset + size < 2 ^ 63
        → (s' : Store rdb) × (rpc_srv_update_metadentry_size rdb merge_id now k size offset false s
            ≡ ((0, negsuc 0), s'))
          × Holds rdb s'
              (store k (some (touched c now (resized c (max (offset + size) md.size) md))) files)
    unfolding rpc_srv_update_metadentry_size update_size increase_size_impl
    grow-Holds merge_id size offset fits =
        let op : ℕ → Bytes = λ n. serialize_operand (increase_size n 0 false) in
        let end : add64 offset size ≡ offset + size = omega (arith, fits) in
        let (s₁, s₂, e₁, e₂, holds₂) =
          size-Holds (op (add64 offset size)) (max (offset + size) md.size)
            (omega (arith, fits, range_here.1))
            (ap (λ (n : ℕ). after_merge c (op n) (found (serialize c md))) end
              ∙ after_merge-increase_size c md range_here (offset + size) (omega (arith, fits))) in
        (
          s₂,
          two_steps (λ ret_offset. (0, ret_offset)) (λ f. (read_failed f, pos 0))
              (merge_impl rdb k (op (add64 offset size))) (touch rdb k now) e₁ e₂ (negsuc 0),
          holds₂,
        )

    pub cut-Holds :
        (length : ℕ)
        → length < md.size
        → (s' : Store rdb) × (rpc_srv_decr_size rdb now k length s ≡ (0, s'))
          × Holds rdb s' (store k (some (touched c now (resized c length md))) files)
    unfolding rpc_srv_decr_size decrease_size_impl
    cut-Holds length less =
        let (s₁, s₂, e₁, e₂, holds₂) =
          size-Holds (serialize_operand (decrease_size length)) length
            (omega (arith, less, range_here.1))
            (after_merge-decrease_size c md range_here length less) in
        (
          s₂,
          two_steps_end (λ _. 0) (λ _. eio)
              (merge_impl rdb k (serialize_operand (decrease_size length))) (touch rdb k now) e₁ e₂,
          holds₂,
        )
