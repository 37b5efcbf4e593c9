-- ===== src/Config.antt =====
-- src/common/Configuration/Config.cpp: options read from files and asked for by their names. A character is its
-- code. A file is what opening it gives. The vector `_additonalFiles`, which nothing uses, and what
-- is printed are left out; file names have no braces, as one is printed as a format.
pub mod Maps
pub mod Lines
pub mod Loading
pub mod Printing
pub mod Options
mod Runs
use warhead_discord_client.Common.{
  ℕ, zero, suc, ◌+◌, ◌%◌, ◌^◌, Bool, true, false, not, ◌&&◌, ◌||◌, Option, none, some, List, [],
  ◌∷◌, ◌++◌, ◌==◌, if◌then◌else◌, length, take, drop, get_or, codes,
}
use warhead_discord_client.StringFormat.{trim}
use warhead_discord_client.StringConvert.{Integral, from_string, bool_from_string, bool_to_string}
use warhead_discord_client.Tokenize.{find_in}

-- An entry of the maps.
pub record ConfigOption : Type 0 where
  pub name : List ℕ
  pub value : List ℕ

unfoldable pub same_text : List ℕ → List ℕ → Bool
same_text [] [] = true
same_text [] (d ∷ ds) = false
same_text (c ∷ cs) [] = false
same_text (c ∷ cs) (d ∷ ds) = (c == d) && same_text cs ds

-- `find` of a map.
unfoldable pub find_option : List ConfigOption → List ℕ → Option (List ℕ)
unfolding same_text
find_option [] name = none
find_option (o ∷ os) name = if same_text o.name name then some o.value else find_option os name

abbrev pub is_none : Option (List ℕ) → Bool
is_none none = true
is_none (some v) = false

unfoldable pub erase_option : List ConfigOption → List ℕ → List ConfigOption
unfolding same_text
erase_option [] name = []
erase_option (o ∷ os) name =
    let rest = erase_option os name in if same_text o.name name then rest else o ∷ rest

-- Whether a text begins with, or has in it, another.
unfoldable pub begins_with : List ℕ → List ℕ → Bool
begins_with str [] = true
begins_with [] (d ∷ ds) = false
begins_with (c ∷ cs) (d ∷ ds) = (c == d) && begins_with cs ds

unfoldable pub contains : List ℕ → List ℕ → Bool
unfolding begins_with
contains [] part = begins_with [] part
contains (c ∷ cs) part = begins_with (c ∷ cs) part || contains cs part

unfoldable pub is_logging_system_options : List ℕ → Bool
unfolding contains
is_logging_system_options option_name =
    contains option_name (codes "LogChannel.") || contains option_name (codes "Logger.")

-- `AddKey`: a file that is optional only changes options that are there, except for those of the logging.
unfoldable pub add_key : List ConfigOption → ConfigOption → Bool → Bool → List ConfigOption
unfolding find_option erase_option is_logging_system_options
add_key options o is_optional is_reload =
    let missing = is_none (find_option options o.name) in
    if is_optional && missing && not (is_logging_system_options o.name) && not is_reload
    then options
    else if missing
    then o ∷ options
    else o ∷ erase_option options o.name

unfoldable pub add_keys : List ConfigOption → List ConfigOption → Bool → Bool → List ConfigOption
unfolding add_key
add_keys options [] is_optional is_reload = options
add_keys options (o ∷ os) is_optional is_reload =
    add_keys (add_key options o is_optional is_reload) os is_optional is_reload

-- A file that is open: what can be read of it, and whether reading fails there in the place of its end.
pub record Stream : Type 0 where
  pub content : List ℕ
  pub breaks_off : Bool

pub data ConfigException : Type 0 where
  failed_open : ConfigException
  failed_read : ℕ → ConfigException
  empty_file : ConfigException

pub data Outcome {ℓ} (A : Type ℓ) : Type ℓ where
  returned : A → Outcome A
  threw : ConfigException → Outcome A

-- `getline`: the characters up to the line's end, and what is behind it, or `none` at the end of the file.
pub record Line : Type 0 where
  pub line : List ℕ
  pub rest : Option (List ℕ)

unfoldable pub get_line : List ℕ → Line
get_line [] = record { line = []; rest = none }
get_line (c ∷ cs) =
    let next = get_line cs in
    if c == 10
    then record { line = []; rest = some cs }
    else record { line = c ∷ next.line; rest = next.rest }

abbrev pub cut_comment : Option ℕ → List ℕ → List ℕ
cut_comment none line = line
cut_comment (some found) line = take found line

unfoldable pub remove_quotes : List ℕ → List ℕ
remove_quotes [] = []
remove_quotes (c ∷ cs) = let rest = remove_quotes cs in if c == 34 then rest else c ∷ rest

-- The option that a line with an equals sign at a place gives.
abbrev pub split_option : Option ℕ → List ℕ → Option ConfigOption
unfolding remove_quotes trim
split_option none line = none
split_option (some equal_pos) line =
    if equal_pos == length line
    then none
    else some (record {
      name = trim (take equal_pos line);
      value = remove_quotes (trim (drop (equal_pos + 1) line));
    })

-- What a round of the loop makes of a line: nothing, if it is left out.
unfoldable pub parse_line : List ℕ → Option ConfigOption
unfolding split_option trim
parse_line raw =
    let line = trim raw in
    let kept = cut_comment (find_in 35 line) line in
    if (length line == 0) || (get_or line 0 0 == 35) || (get_or line 0 0 == 91)
    then none
    else split_option (find_in 61 kept) kept

-- The variables of the loop.
pub record FileConfigs : Type 0 where
  pub count : ℕ
  pub options : List ConfigOption

-- `emplace` of an option, unless the file has given its name already.
unfoldable pub add_option : Option ConfigOption → FileConfigs → FileConfigs
unfolding find_option
add_option none s = s
add_option (some o) s =
    if is_none (find_option s.options o.name)
    then record { count = (s.count + 1) % 2 ^ 32; options = o ∷ s.options }
    else s

-- The loop. Each round passes a character, so that one more round than there are characters is enough.
unfoldable pub read_lines : ℕ → Bool → List ℕ → ℕ → FileConfigs → Outcome FileConfigs
unfolding get_line parse_line add_option
read_lines zero breaks_off text line_number s = returned s
read_lines (suc fuel) breaks_off text line_number s =
    let l = get_line text in
    let number = (line_number + 1) % 2 ^ 32 in
    let next = add_option (parse_line l.line) s in
    elim l.rest [
      | none ↦ if breaks_off then threw (failed_read number) else returned next
      | some rest ↦ read_lines fuel breaks_off rest number next
    ]

-- The result of `LoadFile`, and the options behind it.
pub record Loaded : Type 0 where
  pub ok : Bool
  pub options : List ConfigOption

-- `_filename`, `_configOptions` and `_usingDistConfig`.
pub record ConfigMgr : Type 0 where
  pub filename : List ℕ
  pub config_options : List ConfigOption
  pub using_dist_config : Bool

-- The names that begin with a text.
abbrev names_with : List ConfigOption → List ℕ → List (List ℕ)
unfolding begins_with
names_with [] name = []
names_with (o ∷ os) name =
    let rest = names_with os name in if begins_with o.name name then o.name ∷ rest else rest

-- An exception leaves the options as they are, since it is thrown before any is added.
abbrev pub caught : Outcome Loaded → List ConfigOption → Loaded
caught (returned l) options = l
caught (threw e) options = record { ok = false; options = options }

unfoldable pub get_keys_by_string :
    (List ConfigOption → List ConfigOption) → ConfigMgr → List ℕ → List (List ℕ)
unfolding names_with
get_keys_by_string order m name = names_with (order m.config_options) name

-- The manager when the first file and, if that has succeeded, the other have been loaded.
abbrev pub loaded_both : List ℕ → ConfigMgr → Loaded → Loaded → Bool × ConfigMgr
loaded_both init_file_name m dist more =
    if dist.ok
    then (
      true,
      record {
        filename = init_file_name;
        config_options = more.options;
        using_dist_config = if more.ok then m.using_dist_config else true;
      },
    )
    else (
      false,
      record {
        filename = init_file_name;
        config_options = dist.options;
        using_dist_config = m.using_dist_config;
      },
    )

-- `open_file` is the file system; `order` is the order in which a map is gone through.
module _ (open_file : List ℕ → Option Stream) (order : List ConfigOption → List ConfigOption) where
  -- The end of `ParseFile`, when the lines have been read.
  abbrev pub add_file : FileConfigs → Bool → Bool → List ConfigOption → Outcome Loaded
  unfolding add_keys
  add_file s is_optional is_reload options =
      if s.count == 0
      then if is_optional
        then returned (record { ok = false; options = options })
        else threw empty_file
      else returned
          (record { ok = true; options = add_keys options (order s.options) is_optional is_reload })

  abbrev pub after_lines : Outcome FileConfigs → Bool → Bool → List ConfigOption → Outcome Loaded
  unfolding add_file
  after_lines (returned s) is_optional is_reload options = add_file s is_optional is_reload options
  after_lines (threw e) is_optional is_reload options = threw e

  abbrev pub parse_stream : Option Stream → Bool → Bool → List ConfigOption → Outcome Loaded
  unfolding after_lines read_lines
  parse_stream none is_optional is_reload options =
      if is_optional then returned (record { ok = false; options = options }) else threw failed_open
  parse_stream (some input) is_optional is_reload options =
      after_lines
        (read_lines (suc (length input.content)) input.breaks_off input.content 0
          (record { count = 0; options = [] }))
        is_optional is_reload options

  unfoldable pub parse_file : List ℕ → Bool → Bool → List ConfigOption → Outcome Loaded
  unfolding parse_stream
  parse_file file is_optional is_reload options =
      parse_stream (open_file file) is_optional is_reload options

  unfoldable pub load_file : List ℕ → Bool → Bool → List ConfigOption → Loaded
  unfolding parse_file
  load_file file is_optional is_reload options =
      caught (parse_file file is_optional is_reload options) options

  -- `LoadInitial` and `LoadAdditionalFile`.
  unfoldable pub load_initial : List ℕ → Bool → Loaded
  unfolding load_file
  load_initial file is_reload = load_file file false is_reload []

  unfoldable pub load_additional_file : List ℕ → Bool → Bool → List ConfigOption → Loaded
  unfolding load_file
  load_additional_file file is_optional is_reload options =
      load_file file is_optional is_reload options

  -- `LoadAppConfigs`: the result, and the manager behind it.
  unfoldable pub load_app_configs : List ℕ → ConfigMgr → Bool × ConfigMgr
  unfolding load_initial load_additional_file
  load_app_configs init_file_name m =
      let dist = load_initial (init_file_name ++ codes ".dist") false in
      let more = load_additional_file init_file_name true false dist.options in
      loaded_both init_file_name m dist more

unfoldable pub get_filename : ConfigMgr → List ℕ
get_filename m = if m.using_dist_config then m.filename ++ codes ".dist" else m.filename

-- `GetValueDefault` for a type with its reader, and for text.
abbrev pub value_or {ℓ} : {T : Type ℓ} → Option T → T → T
value_or none default = default
value_or (some v) default = v

abbrev pub read_value {ℓ} : {T : Type ℓ} → (List ℕ → Option T) → Option (List ℕ) → T → T
read_value read none default = default
read_value read (some text) default = value_or (read text) default

unfoldable pub get_value_default {ℓ} :
    {T : Type ℓ} → (List ℕ → Option T) → ConfigMgr → List ℕ → T → T
unfolding find_option
get_value_default read m name default = read_value read (find_option m.config_options name) default

unfoldable pub get_text_default : ConfigMgr → List ℕ → List ℕ → List ℕ
unfolding find_option
get_text_default m name default = value_or (find_option m.config_options name) default

-- `GetOption` of an integral type, and of a truth value.
unfoldable pub get_option : Integral → ConfigMgr → List ℕ → ℕ → ℕ
unfolding get_value_default from_string
get_option t m name default = get_value_default (λ str. from_string t str 10) m name default

unfoldable pub get_bool_option : ConfigMgr → List ℕ → Bool → Bool
unfolding get_text_default bool_from_string bool_to_string
get_bool_option m name default =
    value_or (bool_from_string (get_text_default m name (bool_to_string default)) false) default

-- `GetStringWithDefaultValueFromFunction` of BuiltInConfig.cpp, with what the function gives.
unfoldable pub get_built_in : ConfigMgr → List ℕ → List ℕ → List ℕ
unfolding get_text_default
get_built_in m key default =
    let value = get_text_default m key [] in if length value == 0 then default else value
