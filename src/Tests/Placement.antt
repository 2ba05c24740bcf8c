-- ===== src/Tests/Placement.antt =====
-- Examples for src/common/rpc/distributor.cpp.
use gekko_fs.Base.{ℕ, ◌%◌, ◌<◌, ◌≡◌, refl, [], ◌∷◌, length, arith}
use gekko_fs.Base.Eq.{Bytes, bytes_beq, bytes_eq}
use gekko_fs.Base.Dict.{lookup}
use gekko_fs.Base.Words.{add32}
use gekko_fs.Data.Write.{span}
use gekko_fs.Data.Write.Views.{AreApart}
use gekko_fs.Common.Distributor.{
  Distributor, iota, make, set_hosts_size, locate_directory_metadata, resize, locate_data,
  locate_file_metadata, add_interval, Guided, Entry, stored, locate_data_guided,
}
use gekko_fs.Common.Distributor.Hosts.{
  IsComplete, resize-IsComplete, locate_data-lt, locate_data-AreApart,
}
use gekko_fs.Common.Distributor.Guides.{locate_data_guided-prefix}

abbrev four_hosts : Distributor
four_hosts = record { localhost = 0; hosts_size = 4; all_hosts = iota 4 }

-- A hash for the examples: the length.
abbrev by_length : Bytes → ℕ
by_length s = length s % 1000

abbrev a_path : Bytes
a_path = b'/' ∷ b'a' ∷ []

resize-IsComplete_example :
    IsComplete (make 1 8)
    × IsComplete (resize 6 four_hosts)
    × (locate_directory_metadata (resize 6 (set_hosts_size 6 four_hosts)) ≡ iota 4)
resize-IsComplete_example = resize-IsComplete 1 8 6 four_hosts refl

locate_data-lt_example :
    (locate_data by_length four_hosts a_path 7 1 < 4)
    × (locate_file_metadata by_length four_hosts a_path 1 < 4)
locate_data-lt_example = locate_data-lt by_length four_hosts (omega arith) a_path 7 1

locate_data-AreApart_example :
    AreApart (locate_data by_length four_hosts a_path) (span 0 10) 2 7 1 3
locate_data-AreApart_example =
    locate_data-AreApart by_length four_hosts (omega arith) (span 0 10) 2 a_path 7 1 3 (omega arith)
      (omega arith)

abbrev no_guides : Guided
no_guides = record { base = four_hosts; prefix_list = []; map_interval = [] }

abbrev line : Entry
line = record { path = a_path; chunk_id = 5; destination_host = 3 }

abbrev second_line : Entry
second_line = record { path = a_path; chunk_id = 9; destination_host = 2 }

abbrev guided : Guided
guided = record {
  base = four_hosts;
  prefix_list = (b'/' ∷ b'z' ∷ []) ∷ [];
  map_interval = (a_path, (add_interval 5 (add32 5 1) [], stored 3)) ∷ [];
}

abbrev b_path : Bytes
b_path = b'/' ∷ b'b' ∷ []

locate_data_guided-prefix_example :
    locate_data_guided by_length guided b_path 1 0 ≡ locate_data_guided by_length guided b_path 2 1
unfolding lookup bytes_beq
locate_data_guided-prefix_example =
    locate_data_guided-prefix by_length guided (b'/' ∷ b'z' ∷ []) [] b_path 1 2 0 1 refl refl
