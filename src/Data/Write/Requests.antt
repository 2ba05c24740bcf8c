-- ===== src/Data/Write/Requests.antt =====
-- What forward_write of src/client/rpc/forward_data.cpp sends to one host, against the chunks that
-- the distributor gives to that host.
use gekko_fs.Base.{
  ℕ, zero, suc, ◌+◌, ◌-◌, ◌/◌, ◌%◌, ◌^◌, ◌≤◌, ◌<◌, ◌≡◌, refl, sym, ap, ◌∙◌, subst, Bool, false, not,
  arith, eqb, List, [], length, replicate, Option, none, some, length-replicate, All, sum, map,
  bit_and,
}
use gekko_fs.Base.BitTests.{bit_and_bit}
use gekko_fs.Base.Eq.{Bytes, nat_eq}
use gekko_fs.Base.Dict.{lookup}
use gekko_fs.Common.Bitset.{get_bitset, byte_at}
use gekko_fs.Common.Bitset.Base64.{
  base64_encode, base64_decode, decode_chars, finish, encode_bytes, pad_quads,
}
use gekko_fs.Common.Bitset.RoundTrip.{get_bitset-transport}
use gekko_fs.Data.{chunksize}
use gekko_fs.Data.Write.{
  Plan, empty_plan, or_default, contains, Span, chnk_total, no_chunks, first_copy, copy_count, span,
  plan_write, WriteIn, total_size, write_request,
}
use gekko_fs.Data.Write.Views.{HostView, view, AreApart}
use gekko_fs.Data.Write.Folds.{
  touch_all, served, length-served, contains-served, All-served, is_served, view-place_chunks,
  chunks-touch_all, first-touch_all, last-touch_all, bits-touch_all, bytes-touch_all,
  range-touch_all,
}
use gekko_fs.Data.Serve.Pieces.{
  piece_size, chnk_start-span, chnk_end-span, overrun-eq, aligned-eq, underrun-eq, sum-served,
}

byte_at-zeros : (n i : ℕ) → byte_at (replicate n 0) i ≡ 0
unfolding byte_at
byte_at-zeros zero i = refl
byte_at-zeros (suc n) zero = refl
byte_at-zeros (suc n) (suc i) = byte_at-zeros n i

get_bitset-zeros : (n q : ℕ) → get_bitset (replicate n 0) q ≡ false
unfolding get_bitset
get_bitset-zeros n q =
    ap (λ (b : ℕ). not (eqb (bit_and b (2 ^ (q % 2 ^ 16 % 8))) 0))
      (byte_at-zeros n (q % 2 ^ 16 / 8))
    ∙ ground (arith, bit_and_bit (q % 2 ^ 16 % 8) 0)

zeros-IsByte : (n : ℕ) → All (λ b. b < 256) (replicate n 0)
zeros-IsByte zero = tt
zeros-IsByte (suc n) = (omega arith, zeros-IsByte n)

nothing_decoded : base64_decode (base64_encode []) ≡ []
unfolding base64_decode decode_chars finish base64_encode encode_bytes pad_quads
nothing_decoded = refl

-- What a host decodes is what was set, also when nothing was.
get_bitset-decoded :
    (o : Option Bytes) (n q : ℕ)
    → All (λ b. b < 256) (or_default o (replicate n 0))
    → q < 2 ^ 16
    → q / 8 < length (or_default o (replicate n 0))
    → get_bitset (base64_decode (base64_encode (or_default o []))) q
      ≡ get_bitset (or_default o (replicate n 0)) q
get_bitset-decoded none n q bytes hq room =
    ap (λ (bs : Bytes). get_bitset bs q) nothing_decoded
    ∙ get_bitset-zeros 0 q
    ∙ sym (get_bitset-zeros n q)
get_bitset-decoded (some ops) n q bytes hq room = get_bitset-transport ops q bytes hq room

module _ (locate : ℕ → ℕ → ℕ) (offset size num_copies h : ℕ) (some_bytes : 0 < size)
    (fits : offset + size < 2 ^ 64)
    (few : (offset + size - 1) / chunksize - offset / chunksize < 2 ^ 16)
    (apart : (c : ℕ)
      → AreApart locate
          (span offset size)
          h
          c
          (first_copy num_copies)
          (copy_count num_copies)) where
  abbrev s : Span
  s = span offset size

  abbrev serves_chunk : ℕ → Bool
  serves_chunk = is_served locate s h num_copies

  -- The chunks that the host serves, in order.
  abbrev pub host_chunks : List ℕ
  host_chunks = served serves_chunk s.chnk_start (chnk_total s)

  abbrev plan : Plan
  plan = plan_write locate offset size num_copies

  abbrev pub request : WriteIn
  request = write_request s plan offset size h

  abbrev blank : HostView
  blank = record { chunks = []; first = false; last = false; bits = no_chunks s }

  view-plan : view s h plan ≡ touch_all s host_chunks blank
  unfolding plan_write view contains lookup
  view-plan = view-place_chunks locate s h num_copies s.chnk_start (chnk_total s) empty_plan apart

  chunks-plan : or_default (lookup h plan.target_chnks) [] ≡ host_chunks
  unfolding view
  chunks-plan = ap (λ (v : HostView). v.chunks) view-plan ∙ chunks-touch_all s host_chunks blank

  first-plan : contains h plan.start_targets ≡ contains (offset / chunksize) host_chunks
  unfolding view
  first-plan = ground (
    arith,
    ap (λ (v : HostView). v.first) view-plan,
    first-touch_all s host_chunks blank,
    ap (λ (c : ℕ). contains c host_chunks) (chnk_start-span offset size some_bytes fits),
  )

  last-plan : contains h plan.end_targets ≡ contains ((offset + size - 1) / chunksize) host_chunks
  unfolding view
  last-plan = ground (
    arith,
    ap (λ (v : HostView). v.last) view-plan,
    last-touch_all s host_chunks blank,
    ap (λ (c : ℕ). contains c host_chunks) (chnk_end-span offset size some_bytes fits),
  )

  bits-plan :
      or_default (lookup h plan.write_ops) (no_chunks s) ≡ (touch_all s host_chunks blank).bits
  unfolding view
  bits-plan = ap (λ (v : HostView). v.bits) view-plan

  bytes-plan : All (λ b. b < 256) (or_default (lookup h plan.write_ops) (no_chunks s))
  bytes-plan =
      subst (All (λ (b : ℕ). b < 256)) (sym bits-plan)
        (range-touch_all s host_chunks blank (zeros-IsByte ((chnk_total s + 7) / 8)))

  room-plan : length (or_default (lookup h plan.write_ops) (no_chunks s)) ≡ (chnk_total s + 7) / 8
  room-plan =
      ap length bits-plan
      ∙ bytes-touch_all s host_chunks blank
      ∙ length-replicate ((chnk_total s + 7) / 8) 0

  span-start : s.chnk_start ≡ offset / chunksize
  span-start = chnk_start-span offset size some_bytes fits

  span-end : s.chnk_end ≡ (offset + size - 1) / chunksize
  span-end = chnk_end-span offset size some_bytes fits

  pub chunk_n-request : request.chunk_n ≡ length host_chunks
  unfolding write_request
  chunk_n-request = ap length chunks-plan

  -- The bit set that a host decodes from its request holds a chunk of the interval exactly if one
  -- of the copies that are written of the chunk is on the host, for a write that is not empty, ends
  -- below 2^64, spans at most 2^16 chunks, and puts no two copies of a chunk on the host.
  pub wbitset-request :
      (c : ℕ)
      → offset / chunksize ≤ c
      → c ≤ (offset + size - 1) / chunksize
      → get_bitset (base64_decode request.wbitset) (c - request.chunk_start) ≡ serves_chunk c
  unfolding write_request
  wbitset-request c lo hi =
      let q : ℕ = c - s.chnk_start in
      let hq : q < 2 ^ 16 = omega (arith, span-start) in
      get_bitset-decoded (lookup h plan.write_ops) ((chnk_total s + 7) / 8) q bytes-plan hq
        (omega (arith, room-plan, span-start, span-end))
      ∙ ap (λ (bs : Bytes). get_bitset bs q) bits-plan
      ∙ ground (
        arith,
        bits-touch_all s host_chunks blank q
            (All-served serves_chunk s.chnk_start s.chnk_end s.chnk_start (chnk_total s)
              (omega arith) (omega (arith, span-start, span-end)))
            (omega (arith, span-start, span-end)) (length-replicate ((chnk_total s + 7) / 8) 0) hq,
        get_bitset-zeros ((chnk_total s + 7) / 8) q,
        contains-served serves_chunk c s.chnk_start (chnk_total s),
        ap (λ (m : ℕ). contains m host_chunks) {x = s.chnk_start + q} {y = c}
            (omega (arith, span-start)),
        span-start,
        span-end,
      )

  -- The size that a request announces is the sum of the parts of the interval in the chunks that
  -- the host serves, for a write that is not empty, ends below 2^64, spans at most 2^16 chunks, and
  -- puts no two copies of a chunk on the host.
  pub total-request : request.total_chunk_size ≡ sum (map (piece_size offset size) host_chunks)
  unfolding write_request total_size
  total-request = ground (
    arith,
    ap length chunks-plan,
    first-plan,
    last-plan,
    overrun-eq offset size some_bytes fits,
    aligned-eq offset size some_bytes fits,
    underrun-eq offset size some_bytes fits,
    sum-served offset size some_bytes fits serves_chunk s.chnk_start (chnk_total s)
        (omega (arith, span-start)) (omega (arith, span-start, span-end)),
    length-served serves_chunk s.chnk_start (chnk_total s),
    span-start,
    span-end,
  )
