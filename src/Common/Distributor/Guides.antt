-- ===== src/Common/Distributor/Guides.antt =====
-- What GuidedDistributor of src/common/rpc/distributor.cpp makes of the lines of its map file.
use gekko_fs.Base.{
  ℕ, ◌+◌, ◌-◌, ◌%◌, ◌^◌, ◌≤◌, ◌<◌, ◌≡◌, refl, sym, ap, ◌∙◌, true, false, arith, if◌then◌else◌, List,
  [], ◌∷◌, none, some,
}
use gekko_fs.Base.Eq.{Bytes, bytes_eq, ◌==◌, beq_refl}
use gekko_fs.Base.Dict.{lookup, lookup-assign}
use gekko_fs.Base.Words.{add32, u32_mod}
use gekko_fs.Common.Distributor.{
  upper_bound, put_interval, erase_interval, join_next, join_prev, add_interval, is_inside_interval,
  Guided, Entry, stored, guide, load_inside, load_found, load_chunk, locate_inside, locate_found,
  by_prefix, locate_data_guided,
}

first_interval :
    (c v : ℕ)
    → c + 1 < 2 ^ 32
    → c ≤ v
    → v ≤ c + 1
    → is_inside_interval (v % u32_mod) (add_interval c (add32 c 1) []) ≡ some true
unfolding add_interval is_inside_interval upper_bound put_interval
first_interval c v fits lo hi = ground arith

-- A line for a path that has none sends the chunk and the next one to the host of the line, and the
-- entries of other paths stay, for chunks and hosts of 32 bits.
pub load_chunk-first :
    (str_hash : Bytes → ℕ) (e : Entry) (g : Guided) (chnk_id num_copy : ℕ)
    → lookup e.path g.map_interval ≡ none
    → e.destination_host < 2 ^ 32
    → e.chunk_id + 1 < 2 ^ 32
    → e.chunk_id ≤ chnk_id
    → chnk_id ≤ e.chunk_id + 1
    → (g' : Guided) × (load_chunk e g ≡ some g')
      × (locate_data_guided str_hash g' e.path chnk_id num_copy ≡ some e.destination_host)
      × ((path : Bytes)
          → lookup path g'.map_interval ≡ (
              if e.path == path
              then some (add_interval e.chunk_id (add32 e.chunk_id 1) [], stored e.destination_host)
              else lookup path g.map_interval))
unfolding load_chunk locate_data_guided
load_chunk-first str_hash e g chnk_id num_copy new host fits lo hi = (
  guide e [] g,
  ap (load_found e g) new,
  ap (locate_found str_hash (guide e [] g) e.path chnk_id num_copy) own
      ∙ ap
          (locate_inside str_hash (guide e [] g) e.path chnk_id num_copy
            (stored e.destination_host))
          (first_interval e.chunk_id chnk_id fits lo hi)
      ∙ ap some (omega (arith, host)),
  assigned,
)
  where
    assigned :
        (path : Bytes)
        → lookup path (guide e [] g).map_interval ≡ (
            if e.path == path
            then some (add_interval e.chunk_id (add32 e.chunk_id 1) [], stored e.destination_host)
            else lookup path g.map_interval)
    assigned path = lookup-assign e.path path _ g.map_interval

    own :
        lookup e.path (guide e [] g).map_interval
        ≡ some (add_interval e.chunk_id (add32 e.chunk_id 1) [], stored e.destination_host)
    own = assigned e.path ∙ rw (beq_refl e.path) refl

-- An interval that is added inside a set of one interval cuts it: what lies behind the new interval
-- was in the set and is not in it any more, for numbers below 2^32 - 1.
pub add_interval-inside :
    (first last smaller bigger v : ℕ)
    → first ≤ smaller
    → smaller ≤ last
    → smaller ≤ bigger
    → bigger < v
    → v ≤ last
    → last < 2 ^ 32 - 1
    → (is_inside_interval v ((first, last) ∷ []) ≡ some true)
      × (is_inside_interval v (add_interval smaller bigger ((first, last) ∷ [])) ≡ some false)
unfolding add_interval is_inside_interval upper_bound put_interval erase_interval join_next
    join_prev
add_interval-inside first last smaller bigger v h1 h2 h3 h4 h5 h6 = (ground arith, ground arith)

-- A second line for a path is dropped if its chunk lies more than one behind that of the first
-- line, which is below 2^32 - 1.
pub load_chunk-again :
    (e e' : Entry) (g : Guided)
    → e'.path ≡ e.path
    → lookup e.path g.map_interval
      ≡ some (add_interval e.chunk_id (add32 e.chunk_id 1) [], stored e.destination_host)
    → e.chunk_id + 1 < 2 ^ 32
    → e.chunk_id + 1 < e'.chunk_id
    → load_chunk e' g ≡ some g
unfolding load_chunk add_interval is_inside_interval upper_bound put_interval
load_chunk-again e e' g path found fits far =
    ap (λ (p : Bytes). load_found e' g (lookup p g.map_interval)) path
    ∙ ap (load_found e' g) found
    ∙ ap (load_inside e' ((e.chunk_id, add32 e.chunk_id 1) ∷ []) g) outside
  where
    outside : is_inside_interval e'.chunk_id ((e.chunk_id, add32 e.chunk_id 1) ∷ []) ≡ some false
    outside = ground arith

-- With at least one prefix in the map file, all chunks and copies of a path that has no line of its
-- own are on one host, whatever the prefix is.
pub locate_data_guided-prefix :
    (str_hash : Bytes → ℕ) (g : Guided) (prefix : Bytes) (rest : List Bytes) (path : Bytes)
    (c_1 c_2 copy_1 copy_2 : ℕ)
    → g.prefix_list ≡ prefix ∷ rest
    → lookup path g.map_interval ≡ none
    → locate_data_guided str_hash g path c_1 copy_1 ≡ locate_data_guided str_hash g path c_2 copy_2
unfolding locate_data_guided by_prefix
locate_data_guided-prefix str_hash g prefix rest path c_1 c_2 copy_1 copy_2 some_prefix free =
    to_hash c_1 copy_1 ∙ sym (to_hash c_2 copy_2)
  where
    to_hash :
        (c copy : ℕ)
        → locate_found str_hash g path c copy (lookup path g.map_interval)
          ≡ some (str_hash path % g.base.hosts_size)
    to_hash c copy =
        ap (locate_found str_hash g path c copy) free
        ∙ ap (λ (ps : List Bytes). some (by_prefix str_hash g path c copy ps)) some_prefix
