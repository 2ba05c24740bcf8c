-- ===== src/Common/Distributor/Hosts.antt =====
-- Where SimpleHashDistributor of src/common/rpc/distributor.cpp puts chunks and their copies.
use gekko_fs.Base.{
  ℕ, zero, suc, ◌+◌, ◌*◌, ◌/◌, ◌%◌, ◌^◌, ◌≤◌, ◌<◌, ◌≡◌, ◌≢◌, refl, sym, ap, ◌∙◌, false, arith, eqb,
  ◌++◌, Bool-cases, inl, inr, ltb, ltb→lt, eqb_iff,
}
use native.Mathlib.Nat.{mod-lt, div-add-mod, mod-eq_of_lt, mul-le-mul_left, mul-suc}
use gekko_fs.Base.Eq.{Bytes}
use gekko_fs.Base.Decimal.{to_string}
use gekko_fs.Base.Words.{u32_mod}
use gekko_fs.Data.Write.{Span}
use gekko_fs.Data.Write.Views.{serves, AreApart}
use gekko_fs.Common.Distributor.{
  Distributor, iota, make, set_hosts_size, locate_directory_metadata, resize, locate_data,
  locate_file_metadata,
}

-- The list of hosts is that of all hosts.
abbrev pub IsComplete : Distributor → Type 0
IsComplete d = d.all_hosts ≡ iota d.hosts_size

-- A distributor lists all its hosts from the start, and if it does so then also after a request
-- with a number of hosts; after its setter hosts_size it keeps the old list, also in later requests
-- with the new number.
pub resize-IsComplete :
    (localhost n size : ℕ) (d : Distributor)
    → IsComplete d
    → IsComplete (make localhost n)
      × IsComplete (resize size d)
      × (locate_directory_metadata (resize size (set_hosts_size size d)) ≡ iota d.hosts_size)
unfolding make resize set_hosts_size locate_directory_metadata
resize-IsComplete localhost n size d h = (refl, kept, stale)
  where
    kept : IsComplete (resize size d)
    kept = elim (Bool-cases (eqb d.hosts_size size)) [
      | inl same ↦ rw same h
      | inr other ↦ rw other refl
    ]

    stale : locate_directory_metadata (resize size (set_hosts_size size d)) ≡ iota d.hosts_size
    stale = ground (arith, h)

-- Numbers that are less than the modulus apart have different remainders.
multiples_apart : (n p q : ℕ) → p < q → n * p + n ≤ n * q
multiples_apart n p q h = omega (arith, mul-le-mul_left n h, mul-suc n p)

remainders_apart : (n x y : ℕ) → x < y → y < x + n → x % n ≢ y % n
remainders_apart n x y lt near same = elim (Bool-cases (ltb (x / n) (y / n))) [
  | inl up ↦ omega (
    arith,
    div-add-mod x n,
    div-add-mod y n,
    same,
    multiples_apart n (x / n) (y / n) (ltb→lt (x / n) (y / n) up),
  )
  | inr not_up ↦ elim (Bool-cases (ltb (y / n) (x / n))) [
    | inl down ↦ omega (
      arith,
      div-add-mod x n,
      div-add-mod y n,
      same,
      multiples_apart n (y / n) (x / n) (ltb→lt (y / n) (x / n) down),
    )
    | inr level ↦
        omega (
          arith,
          div-add-mod x n,
          div-add-mod y n,
          same,
          ap (λ (q : ℕ). n * q) (equal not_up level),
        )
  ]
]
  where
    equal : ltb (x / n) (y / n) ≡ false → ltb (y / n) (x / n) ≡ false → x / n ≡ y / n
    equal h k = ground arith

module _ (str_hash : Bytes → ℕ) (d : Distributor) (some_host : 0 < d.hosts_size) where
  -- Chunks and metadata are given to one of the hosts.
  pub locate_data-lt :
      (path : Bytes) (chnk_id num_copy : ℕ)
      → (locate_data str_hash d path chnk_id num_copy < d.hosts_size)
        × (locate_file_metadata str_hash d path num_copy < d.hosts_size)
  unfolding locate_data locate_file_metadata
  locate_data-lt path chnk_id num_copy = (mod-lt _ some_host, mod-lt _ some_host)

  -- Two different copies of a chunk are on different hosts, if both numbers are below the number of
  -- hosts and the hash and the greater number add up to less than 2^64.
  pub locate_data-apart :
      (path : Bytes) (chnk_id copy_1 copy_2 : ℕ)
      → copy_1 < copy_2
      → copy_2 < d.hosts_size
      → str_hash (path ++ to_string (chnk_id % u32_mod)) + copy_2 < 2 ^ 64
      → locate_data str_hash d path chnk_id copy_1 ≢ locate_data str_hash d path chnk_id copy_2
  unfolding locate_data
  locate_data-apart path chnk_id copy_1 copy_2 lt below word same =
      remainders_apart d.hosts_size (str_hash (path ++ to_string (chnk_id % u32_mod)) + copy_1)
        (str_hash (path ++ to_string (chnk_id % u32_mod)) + copy_2) (omega arith) (omega arith)
        (ap (λ (m : ℕ). m % d.hosts_size) (sym (mod-eq_of_lt first_word))
          ∙ same
          ∙ ap (λ (m : ℕ). m % d.hosts_size) (mod-eq_of_lt word))
    where
      first_word : str_hash (path ++ to_string (chnk_id % u32_mod)) + copy_1 < 2 ^ 64
      first_word = omega (arith, word, lt)

  -- The copies that a write goes to are apart in the sense that a write needs.
  copies_from :
      (s : Span) (h : ℕ) (path : Bytes) (chnk_id copy n : ℕ)
      → copy + n ≤ d.hosts_size
      → str_hash (path ++ to_string (chnk_id % u32_mod)) + copy + n < 2 ^ 64
      → (e : ℕ) → e < copy
      → locate_data str_hash d path chnk_id e ≡ h
      → serves (locate_data str_hash d path) s h chnk_id copy n ≡ false
  unfolding serves
  copies_from s h path chnk_id copy zero room word e lt here = refl
  copies_from s h path chnk_id copy (suc n) room word e lt here = ground (
    arith,
    locate_data-apart path chnk_id e copy lt (omega arith) (omega arith),
    copies_from s h path chnk_id (copy + 1) n (omega arith) (omega arith) e (omega arith) here,
  )

  -- No host gets two of the copies of a chunk, from a first copy on, if there are at least as many
  -- hosts as the number behind the last copy and the hash and that number add up to less than 2^64.
  pub locate_data-AreApart :
      (s : Span) (h : ℕ) (path : Bytes) (chnk_id copy n : ℕ)
      → copy + n ≤ d.hosts_size
      → str_hash (path ++ to_string (chnk_id % u32_mod)) + copy + n < 2 ^ 64
      → AreApart (locate_data str_hash d path) s h chnk_id copy n
  locate_data-AreApart s h path chnk_id copy zero room word = tt
  locate_data-AreApart s h path chnk_id copy (suc n) room word = (
    λ here.
        copies_from s h path chnk_id (copy + 1) n (omega arith) (omega arith) copy (omega arith)
          ((eqb_iff _ _).0 here),
    locate_data-AreApart s h path chnk_id (copy + 1) n (omega arith) (omega arith),
  )
