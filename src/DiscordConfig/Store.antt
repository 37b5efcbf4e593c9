-- ===== src/DiscordConfig/Store.antt =====
-- src/client/Config/DiscordConfig.cpp: what asking for an option and setting it do to the store.
use warhead_discord_client.Common.{
  ℕ, ◌≡◌, refl, sym, ap, ◌∙◌, false, Option-cases, inl, inr, Option, some, List,
}
use warhead_discord_client.Config.{
  ConfigOption, ConfigMgr, same_text, find_option, erase_option, get_text_default, value_or,
}
use warhead_discord_client.Config.Maps.{same_text_refl, find_option-if, find_option-erase_option}
use warhead_discord_client.DiscordConfig.{
  OptionType, DiscordConfig, emplaced, default_value_string, add_option, value_of, get_option,
  replaced, set_option,
}

-- A store in which one name stands for a text, and each other for what it stood for.
abbrev pub Changes : DiscordConfig → List ℕ → List ℕ → DiscordConfig → Type 0
Changes d name text e =
    (find_option e.config_options name ≡ some text)
    × ((other : List ℕ)
        → same_text name other ≡ false
        → find_option e.config_options other ≡ find_option d.config_options other)

Changes-emplaced :
    (d : DiscordConfig) (rest : List ConfigOption) (name text : List ℕ)
    → ((other : List ℕ)
        → same_text name other ≡ false
        → find_option rest other ≡ find_option d.config_options other)
    → Changes d name text (emplaced rest name text)
Changes-emplaced d rest name text h = (
  find_option-if (record { name = name; value = text }) rest name (same_text_refl name),
  λ other s. find_option-if (record { name = name; value = text }) rest other s ∙ h other s,
)

module _ {T : Type 0} (type : OptionType T) where
  -- The text behind an option: the store's own, or that of the configuration, or the default's.
  abbrev pub text_for : ConfigMgr → List ℕ → Option T → DiscordConfig → List ℕ
  unfolding get_text_default
  text_for m name default d =
      value_or (find_option d.config_options name)
        (get_text_default m name (default_value_string type default))

  -- `GetOption` gives the value that the option's text has in the type, and the value of the type's own
  -- default if it has none, whatever the caller's default is. The text is the store's, or else the
  -- configuration's, or else the caller's default as it is printed. The store keeps the text for the
  -- name and changes no other.
  pub get_option-Changes :
      (m : ConfigMgr) (name : List ℕ) (default : Option T) (d : DiscordConfig)
      → ((get_option type m name default d).0
          ≡ value_or (type.from_text (text_for m name default d)) type.default_value)
        × Changes d name (text_for m name default d) (get_option type m name default d).1
  unfolding get_option add_option
  get_option-Changes m name default d = elim (Option-cases (find_option d.config_options name)) [
    | inl e ↦
        let text = get_text_default m name (default_value_string type default) in
        let (found, others) = Changes-emplaced d d.config_options name text (λ other s. refl) in
        rw e (ap (value_of type) found, (found, others))
    | inr (text, e) ↦ rw e (ap (value_of type) e, (e, λ other s. refl))
  ]

  get_option-known :
      (n : ConfigMgr) (name : List ℕ) (other : Option T) (e : DiscordConfig) (text : List ℕ)
      → find_option e.config_options name ≡ some text
      → get_option type n name other e ≡ (value_or (type.from_text text) type.default_value, e)
  unfolding get_option
  get_option-known n name other e text h = rw h (ap (λ v. (v, e)) (ap (value_of type) h))

  -- Once an option has been asked for it keeps its value: asking again in the same type gives the same and
  -- changes nothing, whatever has become of the configuration and whatever default is given.
  get_option_again :
      (m n : ConfigMgr) (name : List ℕ) (default other : Option T) (d : DiscordConfig)
      → get_option type n name other (get_option type m name default d).1
        ≡ get_option type m name default d
  get_option_again m n name default other d =
      let (v, (found, others)) = get_option-Changes m name default d in
      let e = (get_option type m name default d).1 in
      get_option-known n name other e (text_for m name default d) found ∙ ap (λ x. (x, e)) (sym v)

  -- What `SetOption` has stored for a name that is there `GetOption` gives, for a value of the type; the
  -- other options stay.
  get_option-set_option :
      (m : ConfigMgr) (name : List ℕ) (default : Option T) (value : T) (d : DiscordConfig)
      (old : List ℕ)
      → type.IsValue value
      → find_option d.config_options name ≡ some old
      → (e : DiscordConfig) × (text : List ℕ) × (set_option type name value d ≡ some e)
        × (get_option type m name default e ≡ (value, e))
        × Changes d name text e
  unfolding set_option
  get_option-set_option m name default value d old v e =
      let (text, written, read) = type.from_text-to_text value v in
      let rest = erase_option d.config_options name in
      let changes =
        Changes-emplaced d rest name text (find_option-erase_option d.config_options name) in
      (
        emplaced rest name text,
        text,
        rw e (ap (λ t. replaced t name d) written),
        get_option-known m name default (emplaced rest name text) text changes.0
            ∙ ap (λ o. (value_or o type.default_value, emplaced rest name text)) read,
        changes,
      )
