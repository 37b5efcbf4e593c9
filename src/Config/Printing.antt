-- ===== src/Config/Printing.antt =====
-- src/common/Configuration/Config.cpp: options that are written as lines are read back from them.
use warhead_discord_client.Common.{
  ℕ, ◌+◌, ◌<◌, ◌≡◌, refl, sym, ap, ap₂, ◌∙◌, subst, Bool, false, ◌||◌, none, some, List, [], ◌∷◌,
  ◌++◌, append-nil, append_assoc, ◌==◌, arith, All, length, take, drop, get_or, length-append,
  take-append_eq, drop-append_eq,
}
use warhead_discord_client.Util.{is_space}
use warhead_discord_client.Tokenize.{find_in}
use warhead_discord_client.Tokenize.Lacking.{
  Lacks, Lacks-append, Lacks-find_in, find_in-append, pieces-append,
}
use warhead_discord_client.Tokenize.Pieces.{pieces}
use warhead_discord_client.StringFormat.{trim}
use warhead_discord_client.StringFormat.Trimming.{BeginsBare, EndsBare, trim-append}
use warhead_discord_client.Config.{ConfigOption, parse_line, remove_quotes, split_option}
use warhead_discord_client.Config.Lines.{options_in, options_in-cons}

-- A line for an option, with its value in quotes, and a file of such lines.
abbrev pub option_line : ConfigOption → List ℕ
option_line o = o.name ++ (32 ∷ 61 ∷ 32 ∷ 34 ∷ (o.value ++ (34 ∷ [])))

abbrev pub config_text : List ConfigOption → List ℕ
config_text [] = []
config_text (o ∷ os) = option_line o ++ (10 ∷ config_text os)

-- A name and a value that a line can express: no line's end, `#` or, in the name, `=` and, in the value,
-- `"`; the name has a character, none of white space at its ends, and no `[` at its begin.
abbrev pub IsWritable : ConfigOption → Type 0
IsWritable o =
    (0 < length o.name)
    × BeginsBare o.name
    × EndsBare o.name
    × ((get_or o.name 0 0 == 91) ≡ false)
    × Lacks 61 o.name
    × Lacks 35 o.name
    × Lacks 10 o.name
    × Lacks 34 o.value
    × Lacks 35 o.value
    × Lacks 10 o.value

remove_quotes-quoted :
    (value : List ℕ) → Lacks 34 value → remove_quotes (34 ∷ (value ++ (34 ∷ []))) ≡ value
unfolding remove_quotes
remove_quotes-quoted value v = rest value v
  where
    rest : (value : List ℕ) → Lacks 34 value → remove_quotes (value ++ (34 ∷ [])) ≡ value
    rest [] v = refl
    rest (c ∷ cs) v = rw v.0 (ap (λ l. c ∷ l) (rest cs v.1))

EndsBare-snoc : (xs : List ℕ) (c : ℕ) → is_space c ≡ false → EndsBare (xs ++ (c ∷ []))
EndsBare-snoc [] c e = e
EndsBare-snoc (x ∷ []) c e = e
EndsBare-snoc (x ∷ y ∷ xs) c e = EndsBare-snoc (y ∷ xs) c e

-- A line with nothing to cut off.
trim-bare : (str : List ℕ) → BeginsBare str → EndsBare str → trim str ≡ str
trim-bare str first last = ap trim (sym (append-nil str)) ∙ trim-append [] str [] tt tt first last

EndsBare-line : (o : ConfigOption) → EndsBare (option_line o)
EndsBare-line o =
    subst EndsBare (append_assoc o.name (32 ∷ 61 ∷ 32 ∷ 34 ∷ o.value) (34 ∷ []))
      (EndsBare-snoc (o.name ++ (32 ∷ 61 ∷ 32 ∷ 34 ∷ o.value)) 34 refl)

split_option-at :
    (before behind : List ℕ) {name value : List ℕ}
    → trim before ≡ name
    → remove_quotes (trim behind) ≡ value
    → split_option (some (length before)) (before ++ (61 ∷ behind))
      ≡ some (record { name = name; value = value })
unfolding split_option
split_option-at before behind {name} {value} e f =
    let l = length-append before (61 ∷ behind) in
    let inside : (length before == length (before ++ (61 ∷ behind))) ≡ false = ground arith in
    let entry : trim (take (length before) (before ++ (61 ∷ behind))) ≡ name =
      ap trim (take-append_eq (length before) before (61 ∷ behind) refl) ∙ e in
    let text : remove_quotes (trim (drop (length before + 1) (before ++ (61 ∷ behind)))) ≡ value =
      ap (λ l. remove_quotes (trim l))
        (ap (drop (length before + 1)) (sym (append_assoc before (61 ∷ []) behind))
          ∙ drop-append_eq (length before + 1) (before ++ (61 ∷ [])) behind
              (omega (arith, length-append before (61 ∷ []))))
      ∙ f in
    rw inside (ap₂ (λ n v. some (record { name = n; value = v })) entry text)

split_option-line :
    (o : ConfigOption)
    → IsWritable o
    → split_option (find_in 61 (option_line o)) (option_line o) ≡ some o
split_option-line o (some_name, first, last, bracket, v, w, x, y, z, t) =
    let quoted = 34 ∷ (o.value ++ (34 ∷ [])) in
    let before = o.name ++ (32 ∷ []) in
    let line : before ++ (61 ∷ 32 ∷ quoted) ≡ option_line o =
      append_assoc o.name (32 ∷ []) (61 ∷ 32 ∷ quoted) in
    let found : find_in 61 (before ++ (61 ∷ 32 ∷ quoted)) ≡ some (length before) =
      find_in-append 61 before (32 ∷ quoted) (Lacks-append 61 o.name (32 ∷ []) v (refl, tt)) in
    let entry : trim before ≡ o.name = trim-append [] o.name (32 ∷ []) tt (refl, tt) first last in
    let text : trim (32 ∷ quoted) ≡ quoted =
      ap (λ l. trim (32 ∷ l)) (sym (append-nil quoted))
      ∙ trim-append (32 ∷ []) quoted [] (refl, tt) tt refl (EndsBare-snoc (34 ∷ o.value) 34 refl) in
    ap (λ l. split_option (find_in 61 l) l) (sym line)
    ∙ ap (λ k. split_option k (before ++ (61 ∷ 32 ∷ quoted))) found
    ∙ split_option-at before (32 ∷ quoted) entry
        (ap remove_quotes text ∙ remove_quotes-quoted o.value y)

first_of :
    (name rest : List ℕ)
    → 0 < length name
    → (get_or (name ++ rest) 0 0 ≡ get_or name 0 0)
      × ((c : ℕ) → Lacks c name → (get_or name 0 0 == c) ≡ false)
      × (BeginsBare name → BeginsBare (name ++ rest))
first_of [] rest h = absurd (omega arith)
first_of (c ∷ cs) rest h = (refl, λ d v. v.0, λ v. v)

parse_line-option_line : (o : ConfigOption) → IsWritable o → parse_line (option_line o) ≡ some o
unfolding parse_line
parse_line-option_line o (some_name, first, last, bracket, v, w, x, y, z, t) =
    let behind = 32 ∷ 61 ∷ 32 ∷ 34 ∷ (o.value ++ (34 ∷ [])) in
    let (same, lacks, bare) = first_of o.name behind some_name in
    let whole : trim (option_line o) ≡ option_line o =
      trim-bare (option_line o) (bare first) (EndsBare-line o) in
    let no_comment : find_in 35 (option_line o) ≡ none = Lacks-find_in 35 (option_line o) (
      Lacks-append 35 o.name behind w
        (refl, (refl, (refl, (refl, Lacks-append 35 o.value (34 ∷ []) z (refl, tt)))))) in
    let l = length-append o.name behind in
    let used : ((length (option_line o) == 0)
          || (get_or (option_line o) 0 0 == 35)
          || (get_or (option_line o) 0 0 == 91))
        ≡ false =
      neither (let n : (length (option_line o) == 0) ≡ false = ground arith in n)
        (ap (λ c. c == 35) same ∙ lacks 35 w) (ap (λ c. c == 91) same ∙ bracket) in
    rw (whole, no_comment, used)
      (split_option-line o (some_name, first, last, bracket, v, w, x, y, z, t))
  where
    neither : {a b c : Bool} → a ≡ false → b ≡ false → c ≡ false → (a || b || c) ≡ false
    neither e f g = rw (e, f, g) refl

empty_line : parse_line [] ≡ none
unfolding parse_line
empty_line = refl

-- A file of lines gives the options back.
pub options_in-config_text :
    (os : List ConfigOption) → All IsWritable os → options_in (pieces 10 (config_text os)) ≡ os
options_in-config_text [] v = options_in-cons [] [] {o = none} empty_line
options_in-config_text (o ∷ os) (p, rest) =
    let (some_name, first, last, bracket, v, w, x, y, z, t) = p in
    ap options_in (
      pieces-append 10 (option_line o) (config_text os) (
        Lacks-append 10 o.name (32 ∷ 61 ∷ 32 ∷ 34 ∷ (o.value ++ (34 ∷ []))) x
          (refl, (refl, (refl, (refl, Lacks-append 10 o.value (34 ∷ []) t (refl, tt)))))))
    ∙ options_in-cons (option_line o) (pieces 10 (config_text os)) (parse_line-option_line o p)
    ∙ ap (λ l. o ∷ l) (options_in-config_text os rest)
