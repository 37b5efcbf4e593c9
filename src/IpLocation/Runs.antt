-- ===== src/IpLocation/Runs.antt =====
-- A table of three ranges, and the search theorem at it.
use warhead_discord_client.Common.{
  ℕ, ◌≡◌, refl, Option, none, some, List, [], ◌∷◌, ◌++◌, arith, All, codes, false,
}
use warhead_discord_client.StringConvert.{to_chars}
use warhead_discord_client.Config.{ConfigMgr, Stream, find_option}
use warhead_discord_client.IpLocation.Loading.{load}
use warhead_discord_client.IpLocation.Written.{table_text, IsWritable, Loads, load-table_text}
use warhead_discord_client.IpLocation.Sorting.Insertion.{insertion}
use warhead_discord_client.IpLocation.{IpLocationRecord, is_sorted, get_location_record}
use warhead_discord_client.IpLocation.Lookup.{Finds, get_location_record-Finds}

abbrev range : ℕ → ℕ → IpLocationRecord
range from to = record {
  ip_from = from;
  ip_to = to;
  country_code = 100 ∷ 101 ∷ [];
  country_name = [];
}

abbrev table : List IpLocationRecord
table = range 10 19 ∷ range 20 29 ∷ range 40 40 ∷ []

finds_inside : get_location_record 25 table ≡ some (range 20 29)
unfolding get_location_record
finds_inside = refl

-- The last address of a range is not found, and a range of one address never is.
misses_last : (get_location_record 29 table ≡ none) × (get_location_record 40 table ≡ none)
unfolding get_location_record
misses_last = (refl, refl)

get_location_record-Finds_example : Finds 25 table (get_location_record 25 table)
unfolding is_sorted
get_location_record-Finds_example =
    get_location_record-Finds 25 table refl (omega arith, (omega arith, (omega arith, tt)))

-- A configuration with a path, and files.
abbrev configured : ConfigMgr
configured = record {
  filename = [];
  config_options = record { name = codes "IPLocationFile"; value = codes "ip" } ∷ [];
  using_dist_config = false;
}

-- A line that is no record is left out, and the last line may have no end.
abbrev odd_file : List ℕ → Option Stream
odd_file file = some (record {
  content = codes "x,2,aa,A" ++ (10 ∷ codes "1,2,US,U") ++ (13 ∷ 10 ∷ codes "3,4,de,D");
  breaks_off = false;
})

odd_lines :
    load odd_file insertion configured
    ≡ some (
        record { ip_from = 1; ip_to = 2; country_code = codes "us"; country_name = codes "U" }
        ∷ record { ip_from = 3; ip_to = 4; country_code = codes "de"; country_name = codes "D" }
        ∷ [])
unfolding load
odd_lines = refl

path_found : find_option configured.config_options (codes "IPLocationFile") ≡ some (codes "ip")
unfolding find_option
path_found = refl

abbrev backwards : List IpLocationRecord
backwards = range 40 40 ∷ range 20 29 ∷ range 10 19 ∷ []

abbrev backwards_file : List ℕ → Option Stream
backwards_file file = some (record { content = table_text backwards; breaks_off = false })

backwards-IsWritable : All IsWritable backwards
backwards-IsWritable = ground arith

-- The records are put in order.
table_sorted : load backwards_file insertion configured ≡ some table
unfolding load to_chars
table_sorted = refl

load-table_text_example : Loads backwards (load backwards_file insertion configured)
load-table_text_example =
    load-table_text backwards_file insertion configured (codes "ip") backwards path_found
      (omega arith) refl backwards-IsWritable
