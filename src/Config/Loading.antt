-- ===== src/Config/Loading.antt =====
-- src/common/Configuration/Config.cpp: the options behind the loading of a file, and behind the loading of both.
use mathlib.Core.List.{Perm}
use warhead_discord_client.Common.{
  ℕ, suc, ◌+◌, ◌^◌, ◌<◌, ◌≡◌, refl, sym, ap, ap₂, ◌∙◌, subst, Bool, true, false, not, ◌&&◌,
  Bool-cases, inl, inr, Option, none, some, List, [], ◌∷◌, ◌++◌, ◌==◌, if◌then◌else◌, arith, length,
  codes,
}
use warhead_discord_client.Tokenize.Pieces.{pieces}
use warhead_discord_client.Config.{
  ConfigOption, ConfigMgr, ConfigException, Stream, Outcome, Loaded, FileConfigs, find_option,
  add_file, after_lines, loaded_both, parse_stream, caught, load_file, load_initial,
  load_additional_file, load_app_configs,
}
use warhead_discord_client.Config.Maps.{
  find_option-nil, find_option-if, same_text_refl, value_after, find_option-add_keys,
  Perm-find_option,
}
use warhead_discord_client.Config.Lines.{
  options_of, options_in, or_else, IsCounted, read_lines-Reads, read_lines-threw,
}

abbrev pub size : Option Stream → ℕ
size none = 0
size (some input) = length input.content

abbrev pub is_nil : List ConfigOption → Bool
is_nil [] = true
is_nil (o ∷ os) = false

no_options-found :
    (os ps : List ConfigOption)
    → ((name : List ℕ) → find_option os name ≡ find_option ps name)
    → (length os == 0) ≡ is_nil ps
no_options-found [] [] h = refl
no_options-found [] (p ∷ ps) h = absurd (
    let c : none ≡ some p.value =
      sym (find_option-nil p.name)
      ∙ h p.name
      ∙ find_option-if p ps p.name (same_text_refl p.name) in
    cc)
no_options-found (o ∷ os) [] h = absurd (
    let c : some o.value ≡ none =
      sym (find_option-if o os o.name (same_text_refl o.name))
      ∙ h o.name
      ∙ find_option-nil o.name in
    cc)
no_options-found (o ∷ os) (p ∷ ps) h = ground arith

-- How the options of a file are to change the options that are there.
abbrev pub Adds : Bool → Bool → List ConfigOption → List ConfigOption → Loaded → Type 0
Adds is_optional is_reload given options l =
    (l.ok ≡ not (is_nil given))
    × ((name : List ℕ)
        → find_option l.options name
          ≡ value_after is_optional is_reload name (find_option given name)
              (find_option options name))

unchanged :
    (e : ConfigException) (is_optional is_reload : Bool) (options : List ConfigOption)
    → Adds is_optional is_reload [] options (
        caught
          (if is_optional
            then Outcome.returned (record { ok = false; options = options })
            else Outcome.threw e)
          options)
unchanged e true is_reload options = (
  refl,
  λ name.
      ap (λ o. value_after true is_reload name o (find_option options name))
        (sym (find_option-nil name)),
)
unchanged e false is_reload options = (
  refl,
  λ name.
      ap (λ o. value_after false is_reload name o (find_option options name))
        (sym (find_option-nil name)),
)

-- The value that an option has behind both files.
abbrev pub settled : List ConfigOption → List ConfigOption → List ℕ → Option (List ℕ)
settled [] conf name = none
settled (o ∷ os) conf name =
    value_after true false name (find_option conf name) (find_option (o ∷ os) name)

-- How the options of both files are to be loaded.
abbrev pub Settles : List ConfigOption → List ConfigOption → ConfigMgr → Bool × ConfigMgr → Type 0
Settles dist conf m (ok, after) =
    (ok ≡ not (is_nil dist))
    × ((name : List ℕ) → find_option after.config_options name ≡ settled dist conf name)
    × (after.using_dist_config
        ≡ (if not (is_nil dist) && is_nil conf then true else m.using_dist_config))

initial_value : (name : List ℕ) (v : Option (List ℕ)) → value_after false false name v none ≡ v
initial_value name none = refl
initial_value name (some v) = refl

both_loaded :
    (dist conf : List ConfigOption) (init_file_name : List ℕ) (m : ConfigMgr) (first more : Loaded)
    → Adds false false dist [] first
    → Adds true false conf first.options more
    → Settles dist conf m (loaded_both init_file_name m first more)
both_loaded [] conf init_file_name m first more (ok, found) added = rw ok (
  refl,
  λ name.
      found name ∙ ap₂ (value_after false false name) (find_option-nil name) (find_option-nil name),
  refl,
)
both_loaded (o ∷ os) conf init_file_name m first more (ok, found) (more_ok, more_found) = rw ok (
  refl,
  λ name.
      more_found name
      ∙ ap (value_after true false name (find_option conf name)) (
          found name
          ∙ ap (value_after false false name (find_option (o ∷ os) name)) (find_option-nil name)
          ∙ initial_value name (find_option (o ∷ os) name)),
  in_use conf more_ok,
)
  where
    in_use :
        (conf : List ConfigOption)
        → more.ok ≡ not (is_nil conf)
        → (if more.ok then m.using_dist_config else true)
          ≡ (if is_nil conf then true else m.using_dist_config)
    in_use [] e = rw e refl
    in_use (c ∷ cs) e = rw e refl

module _ (open_file : List ℕ → Option Stream) (order : List ConfigOption → List ConfigOption)
    (reordered : (os : List ConfigOption) → Perm (order os) os) where
  add_file-Adds :
      (s : FileConfigs) (is_optional is_reload : Bool) (given options : List ConfigOption)
      → IsCounted s
      → ((name : List ℕ) → find_option s.options name ≡ find_option given name)
      → Adds is_optional is_reload given options
          (caught (add_file open_file order s is_optional is_reload options) options)
  unfolding add_file
  add_file-Adds s is_optional is_reload [] options v same =
      let counted = ap (λ n. n == 0) v.1 ∙ no_options-found s.options [] same in
      rw counted (unchanged ConfigException.empty_file is_optional is_reload options)
  add_file-Adds s is_optional is_reload (g ∷ gs) options v same =
      let counted = ap (λ n. n == 0) v.1 ∙ no_options-found s.options (g ∷ gs) same in
      let (map, listed) = Perm-find_option s.options (order s.options) (reordered s.options) v.0 in
      rw counted (
        refl,
        λ name.
            find_option-add_keys is_optional is_reload options (order s.options) name map
            ∙ ap (λ o. value_after is_optional is_reload name o (find_option options name))
                (listed name ∙ same name),
      )

  -- `LoadFile` of any file, also of one that is missing, breaks off or has no option: it succeeds exactly
  -- if the file gives an option. Then each name stands for the first value that the file gives it, or for
  -- what it stood for before; an optional file only gives values to names that are there and to those
  -- of the logging, except in a reload. Otherwise each name stands for what it stood for before. This
  -- holds in whatever order the map of the file is gone through, for files of less than 2 ^ 32 - 1 characters.
  pub load_file-Adds :
      (file : List ℕ) (is_optional is_reload : Bool) (options : List ConfigOption)
      → size (open_file file) + 1 < 2 ^ 32
      → Adds is_optional is_reload
          (options_of (open_file file))
          options
          (load_file open_file order file is_optional is_reload options)
  unfolding load_file
  load_file-Adds file is_optional is_reload options h = from_stream (open_file file) h
    where
      from_stream :
          (input : Option Stream)
          → size input + 1 < 2 ^ 32
          → Adds is_optional is_reload
              (options_of input)
              options
              (caught (parse_stream open_file order input is_optional is_reload options) options)
      from_stream none h = unchanged ConfigException.failed_open is_optional is_reload options
      from_stream (some input) h = elim (Bool-cases input.breaks_off) [
        | inl b ↦
            let (e, t) =
              read_lines-threw (suc (length input.content)) input.content 0
                (record { count = 0; options = [] }) (omega arith) in
            rw b (
              subst
                (λ l.
                  Adds is_optional is_reload [] options
                    (caught (after_lines open_file order l is_optional is_reload options) options))
                (sym t) (unchanged e false is_reload options))
        | inr b ↦
            let (s, e, v, found) =
              read_lines-Reads (suc (length input.content)) input.content 0
                (record { count = 0; options = [] }) (omega arith) (omega arith) (tt, refl) in
            rw b (
              subst
                (λ l.
                  Adds is_optional is_reload (options_in (pieces 10 input.content)) options
                    (caught (after_lines open_file order l is_optional is_reload options) options))
                (sym e)
                (add_file-Adds s is_optional is_reload (options_in (pieces 10 input.content))
                  options v
                  (λ name.
                    found name
                    ∙ ap (λ o. or_else o (find_option (options_in (pieces 10 input.content)) name))
                        (find_option-nil name))))
      ]

  -- `LoadAppConfigs`: it succeeds exactly if the file with the ending .dist gives an option. Then an option
  -- has the value of the other file if it has one there and is an option of the first file or of the
  -- logging, or else that of the first file; and the first file is the one in use if the other gives
  -- no option. Otherwise no option has a value. The files have less than 2 ^ 32 - 1 characters.
  pub load_app_configs-Settles :
      (init_file_name : List ℕ) (m : ConfigMgr)
      → size (open_file (init_file_name ++ codes ".dist")) + 1 < 2 ^ 32
      → size (open_file init_file_name) + 1 < 2 ^ 32
      → Settles
          (options_of (open_file (init_file_name ++ codes ".dist")))
          (options_of (open_file init_file_name))
          m
          (load_app_configs open_file order init_file_name m)
  unfolding load_app_configs load_initial load_additional_file
  load_app_configs-Settles init_file_name m h k =
      let dist_file = init_file_name ++ codes ".dist" in
      let first = load_file open_file order dist_file false false [] in
      both_loaded (options_of (open_file dist_file)) (options_of (open_file init_file_name))
        init_file_name m first (load_file open_file order init_file_name true false first.options)
        (load_file-Adds dist_file false false [] h)
        (load_file-Adds init_file_name true false first.options k)
