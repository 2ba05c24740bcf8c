-- ===== src/Common/Distributor.antt =====
-- The distributors of src/common/rpc/distributor.cpp, which give a host for each chunk and each
-- metadata record. `str_hash` stands for std::hash of a string. A look at the interval before the
-- first one of a set, which C++ leaves undefined, is `none`.
pub mod Hosts
pub mod Guides
use gekko_fs.Base.{
  ℕ, zero, suc, ◌+◌, ◌-◌, ◌%◌, ◌^◌, Bool, true, false, not, ◌&&◌, eqb, leb, ltb, if◌then◌else◌,
  List, [], ◌∷◌, ◌++◌, Option, none, some, range_from,
}
use gekko_fs.Base.Eq.{Bytes, bytes_eq}
use gekko_fs.Base.Dict.{Dict, lookup, assign}
use gekko_fs.Base.Decimal.{to_string}
use gekko_fs.Base.Words.{add64, add32, sub32, u32_mod}

-- SimpleHashDistributor, and what the others share with it.
pub record Distributor : Type 0 where
  pub localhost : ℕ
  pub hosts_size : ℕ
  pub all_hosts : List ℕ

abbrev pub iota : ℕ → List ℕ
iota n = range_from 0 n

unfoldable pub make : ℕ → ℕ → Distributor
make localhost hosts_size = record {
  localhost = localhost;
  hosts_size = hosts_size;
  all_hosts = iota hosts_size;
}

-- The setter `hosts_size`, which leaves the list of hosts alone.
unfoldable pub set_hosts_size : ℕ → Distributor → Distributor
set_hosts_size size d = record d { hosts_size = size }

-- The hosts of a metadata listing.
unfoldable pub locate_directory_metadata : Distributor → List ℕ
locate_directory_metadata d = d.all_hosts

unfoldable pub resize : ℕ → Distributor → Distributor
resize size d =
    if eqb d.hosts_size size then d else record d { hosts_size = size; all_hosts = iota size }

-- IntervalSet: a std::map from the first to the last element of each interval, in its order.
abbrev pub IntervalSet : Type 0
IntervalSet = List (ℕ × ℕ)

abbrev pub Split : Type 0
Split = Option (ℕ × ℕ) × IntervalSet

-- The interval before `upper_bound(v)`, and those from there on.
unfoldable pub upper_bound : ℕ → Option (ℕ × ℕ) → IntervalSet → Split
upper_bound v prev [] = (prev, [])
upper_bound v prev ((first, last) ∷ rest) =
    let below = upper_bound v (some (first, last)) rest in
    if ltb v first then (prev, (first, last) ∷ rest) else below

-- `_intervals[smaller] = bigger` and `erase` on the ordered map.
unfoldable pub put_interval : ℕ → ℕ → IntervalSet → IntervalSet
put_interval smaller bigger [] = (smaller, bigger) ∷ []
put_interval smaller bigger ((first, last) ∷ rest) =
    let behind = put_interval smaller bigger rest in
    if ltb smaller first
    then (smaller, bigger) ∷ (first, last) ∷ rest
    else if eqb smaller first
    then (smaller, bigger) ∷ rest
    else (first, last) ∷ behind

unfoldable pub erase_interval : ℕ → IntervalSet → IntervalSet
erase_interval key [] = []
erase_interval key ((first, last) ∷ rest) =
    let behind = erase_interval key rest in if eqb key first then rest else (first, last) ∷ behind

-- The variables of Add: the new interval and the set.
abbrev pub Adding : Type 0
Adding = ℕ × ℕ × IntervalSet

unfoldable pub join_next : IntervalSet → Adding → Adding
join_next [] a = a
join_next ((first, last) ∷ rest) (smaller, bigger, set) =
    if leb first (add32 bigger 1)
    then (smaller, last, erase_interval first set)
    else (smaller, bigger, set)

unfoldable pub join_prev : ℕ × ℕ → Adding → Adding
join_prev (first, last) (smaller, bigger, set) =
    if leb smaller (add32 last 1)
    then (first, bigger, erase_interval first set)
    else (smaller, bigger, set)

abbrev pub put_adding : Adding → IntervalSet
put_adding (smaller, bigger, set) = put_interval smaller bigger set

unfoldable pub add_interval : ℕ → ℕ → IntervalSet → IntervalSet
add_interval smaller bigger set =
    let (before, next) = upper_bound smaller none set in
    elim before [
      | none ↦ put_interval smaller bigger set
      | some prev ↦ put_adding (join_prev prev (join_next next (smaller, bigger, set)))
    ]

unfoldable pub is_inside_interval : ℕ → IntervalSet → Option Bool
is_inside_interval v set =
    let (before, next) = upper_bound v none set in
    elim before [ none ↦ none | some (first, last) ↦ some (leb first v && leb v last) ]

-- GuidedDistributor: a host is stored plus one.
pub record Guided : Type 0 where
  pub base : Distributor
  pub prefix_list : List Bytes
  pub map_interval : Dict Bytes (IntervalSet × ℕ)

-- One line of the map file.
pub record Entry : Type 0 where
  pub path : Bytes
  pub chunk_id : ℕ
  pub destination_host : ℕ

abbrev pub stored : ℕ → ℕ
stored destination_host = add32 destination_host 1

-- The chunk and the next one are added to the path's set, and the path goes to the host.
abbrev pub guide : Entry → IntervalSet → Guided → Guided
guide e set g = record g {
  map_interval =
      assign e.path (add_interval e.chunk_id (add32 e.chunk_id 1) set, stored e.destination_host)
        g.map_interval;
}

abbrev pub load_inside : Entry → IntervalSet → Guided → Option Bool → Option Guided
load_inside e set g none = none
load_inside e set g (some false) = some g
load_inside e set g (some true) = some (guide e set g)

abbrev pub load_found : Entry → Guided → Option (IntervalSet × ℕ) → Option Guided
load_found e g none = some (guide e [] g)
load_found e g (some (set, host)) = load_inside e set g (is_inside_interval e.chunk_id set)

unfoldable pub load_chunk : Entry → Guided → Option Guided
load_chunk e g = load_found e g (lookup e.path g.map_interval)

unfoldable pub load_path : Bytes → Entry → Guided → Option Guided
load_path [] e g = load_chunk e g
load_path (c ∷ cs) e g =
    if eqb c b'#'
    then some (record g { prefix_list = g.prefix_list ++ cs ∷ [] })
    else load_chunk e g

abbrev pub load_entry : Entry → Guided → Option Guided
load_entry e g = load_path e.path e g

-- The loop of init_guided over the lines of the file.
unfoldable pub init_guided : List Entry → Guided → Option Guided
init_guided [] g = some g
init_guided (e ∷ es) g = elim (load_entry e g) [ none ↦ none | some g' ↦ init_guided es g' ]

module _ (str_hash : Bytes → ℕ) where
  -- SimpleHashDistributor::locate_data and locate_file_metadata. A chunk id is an unsigned int, to
  -- which the callers' 64 bits are cut, and the sum wraps around.
  unfoldable pub locate_data : Distributor → Bytes → ℕ → ℕ → ℕ
  locate_data d path chnk_id num_copy =
      add64 (str_hash (path ++ to_string (chnk_id % u32_mod))) num_copy % d.hosts_size

  unfoldable pub locate_file_metadata : Distributor → Bytes → ℕ → ℕ
  locate_file_metadata d path num_copy = add64 (str_hash path) num_copy % d.hosts_size

  -- locate_data with a number of hosts.
  unfoldable pub locate_data_resized : Distributor → Bytes → ℕ → ℕ → ℕ → Distributor × ℕ
  locate_data_resized d path chnk_id size num_copy =
      (resize size d, locate_data (resize size d) path chnk_id num_copy)

  -- Every chunk goes where the first turn of the loop over the prefixes returns: its comparison has an
  -- empty body.
  unfoldable pub by_prefix : Guided → Bytes → ℕ → ℕ → List Bytes → ℕ
  by_prefix g path chnk_id num_copy [] = locate_data g.base path chnk_id num_copy
  by_prefix g path chnk_id num_copy (prefix ∷ rest) = str_hash path % g.base.hosts_size

  abbrev pub locate_inside : Guided → Bytes → ℕ → ℕ → ℕ → Option Bool → Option ℕ
  locate_inside g path chnk_id num_copy host none = none
  locate_inside g path chnk_id num_copy host (some true) = some (sub32 host 1)
  locate_inside g path chnk_id num_copy host (some false) =
      some (by_prefix g path chnk_id num_copy g.prefix_list)

  abbrev pub locate_found : Guided → Bytes → ℕ → ℕ → Option (IntervalSet × ℕ) → Option ℕ
  locate_found g path chnk_id num_copy none = some (by_prefix g path chnk_id num_copy g.prefix_list)
  locate_found g path chnk_id num_copy (some (set, host)) =
      locate_inside g path chnk_id num_copy host (is_inside_interval (chnk_id % u32_mod) set)

  -- GuidedDistributor::locate_data.
  unfoldable pub locate_data_guided : Guided → Bytes → ℕ → ℕ → Option ℕ
  locate_data_guided g path chnk_id num_copy =
      locate_found g path chnk_id num_copy (lookup path g.map_interval)
