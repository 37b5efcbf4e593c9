-- ===== src/DiscordConfig/Runs.antt =====
-- Runs of the store of options, and its theorems at some of them.
use warhead_discord_client.Common.{
  ℕ, ◌+◌, ◌≡◌, refl, none, some, [], ◌∷◌, arith, codes, Bool, true, false, if◌then◌else◌,
}
use warhead_discord_client.StringConvert.{Integral, from_string, bool_from_string}
use warhead_discord_client.Config.{ConfigMgr, find_option, value_or}
use warhead_discord_client.DiscordConfig.{
  OptionType, DiscordConfig, number_type, bool_type, text_type, get_option, add_options,
}
use warhead_discord_client.DiscordConfig.Store.{Changes, text_for, get_option-Changes}

abbrev uint8 : Integral
uint8 = record { bits = 8; is_signed = false }

-- Numbers print as no more than one digit, which is enough here.
abbrev numbers : OptionType ℕ
numbers = number_type (λ n. (48 + n) ∷ []) uint8 (omega arith, omega arith)

abbrev truths : OptionType Bool
truths = bool_type (λ b. if b then codes "true" else codes "false")

abbrev loaded : ConfigMgr
loaded = record {
  filename = [];
  config_options =
      record { name = codes "Port"; value = codes "80" }
      ∷ record { name = codes "Name"; value = codes "x" }
      ∷ [];
  using_dist_config = false;
}

abbrev empty_store : DiscordConfig
empty_store = record { config_options = [] }

abbrev names_stored : DiscordConfig
unfolding add_options
names_stored = add_options loaded (codes "Port" ∷ codes "Name" ∷ []) empty_store

takes_configured : (get_option numbers loaded (codes "Port") (some 7) empty_store).0 ≡ 80
unfolding get_option from_string
takes_configured = refl

takes_default : (get_option truths loaded (codes "Quiet") (some true) empty_store).0 ≡ true
unfolding get_option bool_from_string
takes_default = refl

-- A value that is no number: not the default 7 but 0.
takes_zero : (get_option numbers loaded (codes "Name") (some 7) empty_store).0 ≡ 0
unfolding get_option from_string
takes_zero = refl

lists_names : (get_option text_type loaded (codes "Name") none names_stored).0 ≡ codes "x"
unfolding get_option names_stored
lists_names = refl

get_option-Changes_example :
    ((get_option numbers loaded (codes "Name") (some 7) empty_store).0
      ≡ value_or
          (numbers.from_text (text_for numbers loaded (codes "Name") (some 7) empty_store))
          numbers.default_value)
    × Changes empty_store
        (codes "Name")
        (text_for numbers loaded (codes "Name") (some 7) empty_store)
        (get_option numbers loaded (codes "Name") (some 7) empty_store).1
get_option-Changes_example = get_option-Changes numbers loaded (codes "Name") (some 7) empty_store

port_stored : find_option names_stored.config_options (codes "Port") ≡ some (codes "80")
unfolding find_option names_stored
port_stored = refl
