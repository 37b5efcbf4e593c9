-- ===== src/DiscordConfig.antt =====
-- src/client/Config/DiscordConfig.cpp: the client's own store of options, which takes each from the configuration
-- when it is first asked for. Numbers and truth values are printed as defaults by a third-party library,
-- which is a parameter.
pub mod Store
mod Runs
use warhead_discord_client.Common.{
  ℕ, ◌^◌, ◌<◌, ◌≡◌, refl, Bool, true, false, Option, none, some, List, [], ◌∷◌, if◌then◌else◌,
}
use warhead_discord_client.StringConvert.{
  Integral, from_string, to_string, bool_from_string, bool_to_string,
}
use warhead_discord_client.StringConvert.RoundTrip.{
  IsNative, from_string-to_string, bool_from_string-bool_to_string,
}
use warhead_discord_client.Config.{
  ConfigOption, ConfigMgr, find_option, is_none, erase_option, get_text_default, value_or,
}

-- A type of options: what `GetDefaultValue`, `StringFormat`, `StringTo` and `ToString` are at it. `ToString`
-- may fail an assertion, but not at a value of the type.
pub record OptionType (T : Type 0) : Type 1 where
  pub default_value : T
  pub printed : T → List ℕ
  pub from_text : List ℕ → Option T
  pub to_text : T → Option (List ℕ)
  pub IsValue : T → Type 0
  pub from_text-to_text :
      (value : T)
      → IsValue value
      → (text : List ℕ) × (to_text value ≡ some text) × (from_text text ≡ some value)

abbrev pub number_type : (ℕ → List ℕ) → (t : Integral) → IsNative t → OptionType ℕ
number_type printed t native = record {
  default_value = 0;
  printed = printed;
  from_text = λ text. from_string t text 10;
  to_text = to_string t;
  IsValue = λ value. value < 2 ^ t.bits;
  from_text-to_text = λ value h. from_string-to_string t value native h;
}

abbrev pub bool_type : (Bool → List ℕ) → OptionType Bool
bool_type printed = record {
  default_value = false;
  printed = printed;
  from_text = λ text. bool_from_string text false;
  to_text = λ value. some (bool_to_string value);
  IsValue = λ value. Unit;
  from_text-to_text =
      λ value h. (bool_to_string value, refl, bool_from_string-bool_to_string value false);
}

abbrev pub text_type : OptionType (List ℕ)
text_type = record {
  default_value = [];
  printed = λ text. text;
  from_text = some;
  to_text = some;
  IsValue = λ text. Unit;
  from_text-to_text = λ value h. (value, refl, refl);
}

pub record DiscordConfig : Type 0 where
  pub config_options : List ConfigOption

-- A map with a name's value changed or added.
abbrev pub emplaced : List ConfigOption → List ℕ → List ℕ → DiscordConfig
emplaced options name value = record {
  config_options = record { name = name; value = value } ∷ options;
}

-- `GetDefaultValueString`.
abbrev pub default_value_string : {T : Type 0} → OptionType T → Option T → List ℕ
default_value_string type default = type.printed (value_or default type.default_value)

unfoldable pub add_option :
    {T : Type 0} → OptionType T → ConfigMgr → List ℕ → Option T → DiscordConfig → DiscordConfig
unfolding find_option erase_option get_text_default
add_option type m name default d =
    let rest =
      if is_none (find_option d.config_options name)
      then d.config_options
      else erase_option d.config_options name in
    emplaced rest name (get_text_default m name (default_value_string type default))

-- `AddOption` of a list of names.
unfoldable pub add_options : ConfigMgr → List (List ℕ) → DiscordConfig → DiscordConfig
unfolding add_option
add_options m [] d = d
add_options m (name ∷ names) d = add_options m names (add_option text_type m name none d)

-- The second part of `GetOption`: `none` for a missing name, and a text that may not have a value.
abbrev pub value_of : {T : Type 0} → OptionType T → Option (List ℕ) → T
value_of type none = type.default_value
value_of type (some text) = value_or (type.from_text text) type.default_value

unfoldable pub get_option :
    {T : Type 0} → OptionType T → ConfigMgr → List ℕ → Option T → DiscordConfig → T × DiscordConfig
unfolding add_option find_option
get_option type m name default d =
    let e =
      if is_none (find_option d.config_options name) then add_option type m name default d else d in
    (value_of type (find_option e.config_options name), e)

abbrev pub replaced : Option (List ℕ) → List ℕ → DiscordConfig → Option DiscordConfig
unfolding erase_option
replaced none name d = none
replaced (some text) name d = some (emplaced (erase_option d.config_options name) name text)

-- `SetOption`: a name that is missing is left out; `none` is a failed assertion of `ToString`.
unfoldable pub set_option :
    {T : Type 0} → OptionType T → List ℕ → T → DiscordConfig → Option DiscordConfig
unfolding find_option replaced
set_option type name value d =
    if is_none (find_option d.config_options name)
    then some d
    else replaced (type.to_text value) name d
