-- ===== src/Config/Runs.antt =====
-- Runs of the configuration's loading, and its theorems at some of them.
use mathlib.Core.List.Perm
use mathlib.Core.List.{Perm}
use warhead_discord_client.Common.{
  ℕ, ◌≡◌, refl, true, false, Option, none, some, List, [], ◌∷◌, ◌++◌, arith, All, length, codes,
  if◌then◌else◌, ◌==◌,
}
use warhead_discord_client.StringConvert.{Integral, to_string}
use warhead_discord_client.Config.{
  ConfigOption, ConfigMgr, Stream, find_option, load_file, load_app_configs, get_filename,
  get_keys_by_string, get_text_default, get_option, get_bool_option, get_built_in,
}
use warhead_discord_client.Config.Lines.{options_of}
use warhead_discord_client.Config.Loading.{Adds, Settles, load_file-Adds, load_app_configs-Settles}
use warhead_discord_client.Config.Printing.{config_text, IsWritable}
use warhead_discord_client.Config.Options.{get_option-to_string}

abbrev lines : List (List ℕ) → List ℕ
lines [] = []
lines (l ∷ ls) = l ++ (10 ∷ lines ls)

abbrev dist_file : Stream
dist_file = record {
  content = lines (
      codes "# settings"
      ∷ codes "[section]"
      ∷ codes "Port = 80 # of the server"
      ∷ codes "  Name = 'x y' "
      ∷ codes "Port = 81"
      ∷ codes "no option"
      ∷ codes "Quiet = yes"
      ∷ []);
  breaks_off = false;
}

abbrev conf_file : Stream
conf_file = record {
  content = lines (codes "Port=-5" ∷ codes "Unknown=1" ∷ codes "Logger.root=2" ∷ []);
  breaks_off = false;
}

abbrev broken_file : Stream
broken_file = record { content = lines (codes "Port = 1" ∷ []); breaks_off = true }

-- The files "c.dist" and "c", told apart by the lengths of their names.
abbrev dist_only : List ℕ → Option Stream
dist_only file = if length file == 6 then some dist_file else none

abbrev two_files : List ℕ → Option Stream
two_files file = if length file == 1 then some conf_file else dist_only file

abbrev broken_conf : List ℕ → Option Stream
broken_conf file = if length file == 1 then some broken_file else dist_only file

abbrev same_order : List ConfigOption → List ConfigOption
same_order os = os

same_order-Perm : (os : List ConfigOption) → Perm (same_order os) os
same_order-Perm os = Perm.refl os

abbrev fresh : ConfigMgr
fresh = record { filename = []; config_options = []; using_dist_config = false }

abbrev int16 : Integral
int16 = record { bits = 16; is_signed = true }

-- "Port=-5" is the file's own option, "Unknown=1" is not taken, and "Logger.root=2" is one of the logging.
abbrev both : ConfigMgr
unfolding load_app_configs
both = (load_app_configs two_files same_order (codes "c") fresh).1

reads_number : get_option int16 both (codes "Port") 7 ≡ 65531
unfolding get_option both
reads_number = refl

skips_unknown : get_option int16 both (codes "Unknown") 7 ≡ 7
unfolding get_option both
skips_unknown = refl

takes_logging : get_option int16 both (codes "Logger.root") 7 ≡ 2
unfolding get_option both
takes_logging = refl

reads_text : get_text_default both (codes "Name") [] ≡ codes "'x y'"
unfolding get_text_default both
reads_text = refl

reads_truth : get_bool_option both (codes "Quiet") false ≡ true
unfolding get_bool_option both
reads_truth = refl

bad_number : get_option int16 both (codes "Name") 7 ≡ 7
unfolding get_option both
bad_number = refl

-- The first value of a file counts, and a file that breaks off counts for nothing.
keeps_first :
    get_option int16 (load_app_configs broken_conf same_order (codes "c") fresh).1 (codes "Port") 7
    ≡ 80
unfolding get_option load_app_configs
keeps_first = refl

uses_dist :
    get_filename (load_app_configs dist_only same_order (codes "c") fresh).1 ≡ codes "c.dist"
unfolding get_filename load_app_configs
uses_dist = refl

built_in :
    get_built_in both (codes "Name") (codes "y") ++ get_built_in both (codes "Path") (codes "z")
    ≡ codes "'x y'z"
unfolding get_built_in both
built_in = refl

lists_keys : get_keys_by_string same_order both (codes "N") ≡ codes "Name" ∷ []
unfolding get_keys_by_string both
lists_keys = refl

load_file-Adds_example :
    Adds true false
      (options_of (some conf_file))
      (record { name = codes "Port"; value = [] } ∷ [])
      (load_file two_files same_order
        (codes "c")
        true
        false
        (record { name = codes "Port"; value = [] } ∷ []))
load_file-Adds_example =
    load_file-Adds two_files same_order same_order-Perm (codes "c") true false
      (record { name = codes "Port"; value = [] } ∷ []) (omega arith)

load_app_configs-Settles_example :
    Settles
      (options_of (some dist_file))
      (options_of (some conf_file))
      fresh
      (load_app_configs two_files same_order (codes "c") fresh)
load_app_configs-Settles_example =
    load_app_configs-Settles two_files same_order same_order-Perm (codes "c") fresh (omega arith)
      (omega arith)

-- The options "Port" and "Name" in a file that is written for them.
abbrev two_options : List ConfigOption
two_options =
    record { name = codes "Port"; value = codes "-5" }
    ∷ record { name = codes "Name"; value = codes " = x" }
    ∷ []

abbrev written : List ℕ → Option Stream
written file =
    if length file == 6
    then some (record { content = config_text two_options; breaks_off = false })
    else none

number_written : find_option two_options (codes "Port") ≡ to_string int16 65531
unfolding find_option to_string
number_written = refl

two_options-IsWritable : All IsWritable two_options
two_options-IsWritable = ground arith

get_option-to_string_example :
    get_option int16 (load_app_configs written same_order (codes "c") fresh).1 (codes "Port") 7
    ≡ 65531
get_option-to_string_example =
    get_option-to_string written same_order same_order-Perm (codes "c") fresh two_options refl refl
      two_options-IsWritable (omega arith) (codes "Port") int16 65531 7 (omega arith, omega arith)
      (omega arith) number_written
