-- ===== src/Config/Options.antt =====
-- src/common/Configuration/Config.cpp: what asking for an option gives.
use mathlib.Core.List.{Perm}
use warhead_discord_client.Common.{
  ℕ, ◌+◌, ◌^◌, ◌<◌, ◌≡◌, ◌⊎◌, sym, ap, ap₂, ◌∙◌, subst, true, false, Option-cases, inl, inr, Option,
  none, some, List, [], ◌∷◌, ◌++◌, arith, All, length, codes,
}
use warhead_discord_client.StringConvert.{Integral, from_string, to_string}
use warhead_discord_client.StringConvert.Reading.{Denotes, from_string-Denotes}
use warhead_discord_client.StringConvert.RoundTrip.{IsNative, from_string-to_string}
use warhead_discord_client.Config.{
  ConfigOption, ConfigMgr, Stream, find_option, get_option, get_value_default, read_value, value_or,
  load_app_configs,
}
use warhead_discord_client.Config.Maps.{value_after, find_option-nil}
use warhead_discord_client.Config.Lines.{options_of}
use warhead_discord_client.Config.Loading.{size, settled, load_app_configs-Settles}
use warhead_discord_client.Config.Printing.{config_text, IsWritable, options_in-config_text}

-- `GetOption` of an integral type gives the number that the option's text denotes in the type, or else, if
-- the option is missing or its text denotes none, the default.
get_option-cases :
    (t : Integral) (m : ConfigMgr) (name : List ℕ) (default : ℕ)
    → ((text : List ℕ) × (find_option m.config_options name ≡ some text)
        × Denotes t 10 text (get_option t m name default))
      ⊎ ((get_option t m name default ≡ default)
          × ((text : List ℕ) (v : ℕ)
              → find_option m.config_options name ≡ some text
              → ¬ Denotes t 10 text v))
unfolding get_option get_value_default
get_option-cases t m name default = elim (Option-cases (find_option m.config_options name)) [
  | inl e ↦ inr (
    ap (λ o. read_value (λ str. from_string t str 10) o default) e,
    λ text v f. absurd (let c : none ≡ some text = sym e ∙ f in cc),
  )
  | inr (text, e) ↦
      let given = ap (λ o. read_value (λ str. from_string t str 10) o default) e in
      elim (Option-cases (from_string t text 10)) [
        | inl f ↦ inr (
          given ∙ ap (λ o. value_or o default) f,
          λ other v g d.
              let same : text ≡ other = let c : some text ≡ some other = sym e ∙ g in cc in
              let read =
                (from_string-Denotes t 10 v text (omega arith) (omega arith)).1
                  (subst (λ s. Denotes t 10 s v) (sym same) d) in
              absurd (let c : none ≡ some v = sym f ∙ read in cc),
        )
        | inr (v, f) ↦ inl (
          text,
          e,
          subst (Denotes t 10 text) (sym (given ∙ ap (λ o. value_or o default) f))
              ((from_string-Denotes t 10 v text (omega arith) (omega arith)).0 f),
        )
      ]
]

module _ (open_file : List ℕ → Option Stream) (order : List ConfigOption → List ConfigOption)
    (reordered : (os : List ConfigOption) → Perm (order os) os) (init_file_name : List ℕ)
    (m : ConfigMgr) (os : List ConfigOption)
    (dist : open_file (init_file_name ++ codes ".dist")
      ≡ some (record { content = config_text os; breaks_off = false }))
    (alone : open_file init_file_name ≡ none) (writable : All IsWritable os)
    (short : length (config_text os) + 1 < 2 ^ 32) where
  find_option-written :
      (name : List ℕ)
      → find_option (load_app_configs open_file order init_file_name m).1.config_options name
        ≡ find_option os name
  find_option-written name =
      let (ok, found, in_use) =
        load_app_configs-Settles open_file order reordered init_file_name m
          (omega (arith, ap size dist)) (omega (arith, ap size alone)) in
      found name
      ∙ ap₂ (λ d c. settled d c name) (ap options_of dist ∙ options_in-config_text os writable)
          (ap options_of alone)
      ∙ only_dist os
    where
      only_dist : (os : List ConfigOption) → settled os [] name ≡ find_option os name
      only_dist [] = sym (find_option-nil name)
      only_dist (o ∷ os) =
          ap (λ v. value_after true false name v (find_option (o ∷ os) name)) (find_option-nil name)

  -- A number that `ToString` has written into the file with the ending .dist is what `GetOption` gives once
  -- the files are loaded: for an option of the file, of which the lines have the form `name = "value"`, and
  -- the other file is missing. The file has less than 2 ^ 32 - 1 characters; names and values are such that
  -- lines can express them; the type has at most 64 bits.
  pub get_option-to_string :
      (name : List ℕ) (t : Integral) (val default : ℕ)
      → IsNative t
      → val < 2 ^ t.bits
      → find_option os name ≡ to_string t val
      → get_option t (load_app_configs open_file order init_file_name m).1 name default ≡ val
  unfolding get_option get_value_default
  get_option-to_string name t val default v h e =
      let (str, written, read) = from_string-to_string t val v h in
      ap (λ o. read_value (λ s. from_string t s 10) o default)
        (find_option-written name ∙ e ∙ written)
      ∙ ap (λ o. value_or o default) read
