-- ===== src/Log.antt =====
-- src/common/Logging/Log.cpp: the loggers that the configuration asks for, and the test of a message's level before it
-- is written. The loggers themselves are those of a third-party library, which are an interface; what the
-- channels do is not modelled.
pub mod Levels
mod Runs
use warhead_discord_client.Common.{
  ℕ, zero, suc, ◌+◌, ◌%◌, ◌^◌, ◌<◌, ◌≡◌, ◌⊎◌, Bool, true, false, not, ◌&&◌, ◌||◌, Option, none,
  some, List, [], ◌∷◌, ltb, leb, ◌==◌, if◌then◌else◌, length, get_or, take, drop, codes,
}
use warhead_discord_client.StringConvert.{Integral, from_string}
use warhead_discord_client.Tokenize.{tokenize}
use warhead_discord_client.Config.{
  ConfigOption, ConfigMgr, same_text, get_text_default, get_keys_by_string, value_or,
}

-- The static members of `Poco::Logger` that the code calls: `has`, `get` with `getLevel`, `create`, of which `none`
-- is an exception, and `shutdown`. Creating a logger gives it its level and changes no other, and after
-- a shutdown there is none.
pub record LoggerStore (S : Type 0) : Type 0 where
  pub has : List ℕ → S → Bool
  pub level : List ℕ → S → ℕ
  pub create : List ℕ → ℕ → S → Option S
  pub shutdown : S
  pub level-create :
      (name other : List ℕ) (l : ℕ) (s s' : S)
      → create name l s ≡ some s'
      → has other s' ≡ true
      → (level other s' ≡ l) ⊎ ((has other s ≡ true) × (level other s' ≡ level other s))
  pub has-shutdown : (name : List ℕ) → has name shutdown ≡ false

-- The last place of a dot.
abbrev pub later_dot : ℕ → Option ℕ → Option ℕ
later_dot c none = if c == 46 then some 0 else none
later_dot c (some k) = some (suc k)

unfoldable pub find_last_dot : List ℕ → Option ℕ
find_last_dot [] = none
find_last_dot (c ∷ cs) = later_dot c (find_last_dot cs)

abbrev pub parent_of : Option ℕ → List ℕ → List ℕ
parent_of none type = codes "root"
parent_of (some found) type = take found type

abbrev pub uint8 : Integral
uint8 = record { bits = 8; is_signed = false }

unfoldable pub get_position_options : List ℕ → ℕ → List ℕ
unfolding tokenize
get_position_options options position =
    let tokens = tokenize options 44 true in
    if ltb (length tokens % 2 ^ 8) (position + 1) then [] else get_or tokens position []

abbrev pub all_known : (List ℕ → Bool) → List (List ℕ) → Bool
all_known has_channel [] = true
all_known has_channel (c ∷ cs) = has_channel c && all_known has_channel cs

module _ {S : Type 0} (store : LoggerStore S) where
  pub record Log : Type 0 where
    pub highest_log_level : ℕ
    pub loggers : S

  -- `GetLoggerByType`: the level of the logger, if there is one. A call passes on a shorter name, or the
  -- name of the root, so that two calls more than there are characters are enough.
  unfoldable pub get_logger_by_type : ℕ → List ℕ → S → Option ℕ
  unfolding find_last_dot same_text
  get_logger_by_type zero type s = none
  get_logger_by_type (suc fuel) type s =
      let above = get_logger_by_type fuel (parent_of (find_last_dot type) type) s in
      if store.has type s
      then some (store.level type s)
      else if same_text type (codes "root")
      then none
      else above

  abbrev pub logs_at : Option ℕ → ℕ → Bool
  logs_at none level = false
  logs_at (some log_level) level = not (log_level == 0) && leb level log_level

  -- `ShouldLog`
  unfoldable pub should_log : List ℕ → ℕ → Log → Bool
  unfolding get_logger_by_type
  should_log type level log =
      if ltb log.highest_log_level level
      then false
      else logs_at (get_logger_by_type (length type + 2) type log.loggers) level

  abbrev pub with_logger : Option S → Log → Log
  with_logger none log = log
  with_logger (some s) log = record { highest_log_level = log.highest_log_level; loggers = s }

  -- The end of `CreateLoggerFromConfig`, for a level in range.
  unfoldable pub add_logger : (List ℕ → Bool) → List ℕ → ℕ → List ℕ → Log → Log
  unfolding tokenize
  add_logger has_channel logger_name level channels log =
      let raised : Log = record {
        highest_log_level =
            if ltb log.highest_log_level level then level else log.highest_log_level;
        loggers = log.loggers;
      } in
      if all_known has_channel (tokenize channels 32 false)
      then with_logger (store.create logger_name level raised.loggers) raised
      else raised

  -- `CreateLoggerFromConfig`
  unfoldable pub create_logger_from_config : (List ℕ → Bool) → ConfigMgr → List ℕ → Log → Log
  unfolding tokenize get_position_options add_logger get_text_default from_string same_text
  create_logger_from_config has_channel m config_logger_name log =
      let options = get_text_default m config_logger_name [] in
      let logger_name = drop 7 config_logger_name in
      let tokens = tokenize options 44 true in
      let level = value_or (from_string uint8 (get_position_options options 0) 10) 9 in
      if (length config_logger_name == 0)
        || same_text logger_name (codes "system")
        || (length options == 0)
        || ltb (length tokens) 2
        || leb 9 level
      then log
      else add_logger has_channel logger_name level (get_position_options options 1) log

  -- `ReadLoggersFromConfig`, for the names in the order of the map.
  unfoldable pub read_loggers : (List ℕ → Bool) → ConfigMgr → List (List ℕ) → Log → Log
  unfolding create_logger_from_config
  read_loggers has_channel m [] log = log
  read_loggers has_channel m (name ∷ names) log =
      read_loggers has_channel m names (create_logger_from_config has_channel m name log)

  -- `LoadFromConfig`: the parameter says which channels `ReadChannelsFromConfig` has made. The directory of the log
  -- files is left out.
  unfoldable pub load_from_config :
      (List ℕ → Bool) → (List ConfigOption → List ConfigOption) → ConfigMgr → Log
  unfolding read_loggers get_keys_by_string
  load_from_config has_channel order m =
      read_loggers has_channel m (get_keys_by_string order m (codes "Logger."))
        (record { highest_log_level = 1; loggers = store.shutdown })
