-- ===== src/Config/Lines.antt =====
-- src/common/Configuration/Config.cpp: the loop of `ParseFile` over the lines of a file.
use warhead_discord_client.Common.{
  ℕ, zero, suc, ◌+◌, ◌%◌, ◌^◌, ◌≤◌, ◌<◌, ◌≡◌, refl, sym, ap, ap₂, ◌∙◌, true, false, Bool-cases,
  Option-cases, inl, inr, Option, none, some, List, [], ◌∷◌, ◌==◌, if◌then◌else◌, arith, length,
}
use native.Mathlib.Nat.{mod-eq_of_lt}
use warhead_discord_client.Tokenize.Pieces.{pieces, onto_first}
use warhead_discord_client.Config.{
  ConfigOption, ConfigException, Stream, same_text, find_option, is_none, Outcome, get_line,
  parse_line, FileConfigs, add_option, read_lines,
}
use warhead_discord_client.Config.Maps.{find_option-if, find_option-nil, IsMap, same_text-equal}

-- The first line, and the lines behind it.
get_line-none :
    (text : List ℕ) → (get_line text).rest ≡ none → pieces 10 text ≡ (get_line text).line ∷ []
unfolding get_line
get_line-none [] e = refl
get_line-none (c ∷ cs) e = elim (Bool-cases (c == 10)) [
  | inl b ↦ absurd (let f : some cs ≡ none = rw b at e in cc)
  | inr b ↦ rw b (ap (onto_first c) (get_line-none cs (rw b at e)))
]

get_line-some :
    (text rest : List ℕ)
    → (get_line text).rest ≡ some rest
    → (pieces 10 text ≡ (get_line text).line ∷ pieces 10 rest) × (length rest < length text)
unfolding get_line
get_line-some [] rest e = absurd (let f : none ≡ some rest = e in cc)
get_line-some (c ∷ cs) rest e = elim (Bool-cases (c == 10)) [
  | inl b ↦
      let f : some cs ≡ some rest = rw b at e in
      let g : cs ≡ rest = cc in (rw b (ap (λ r. [] ∷ pieces 10 r) g), omega (arith, ap length g))
  | inr b ↦
      let (p, l) = get_line-some cs rest (rw b at e) in (rw b (ap (onto_first c) p), omega arith)
]

abbrev pub with_option : Option ConfigOption → List ConfigOption → List ConfigOption
with_option none os = os
with_option (some o) os = o ∷ os

-- The options that lines give.
abbrev pub options_in : List (List ℕ) → List ConfigOption
options_in [] = []
options_in (l ∷ ls) = with_option (parse_line l) (options_in ls)

pub options_in-cons :
    (l : List ℕ) (ls : List (List ℕ)) {o : Option ConfigOption}
    → parse_line l ≡ o
    → options_in (l ∷ ls) ≡ with_option o (options_in ls)
options_in-cons l ls e = ap (λ o. with_option o (options_in ls)) e

-- The options that a file gives: none, if it cannot be opened or breaks off.
abbrev pub options_of : Option Stream → List ConfigOption
options_of none = []
options_of (some input) = if input.breaks_off then [] else options_in (pieces 10 input.content)

abbrev pub or_else : Option (List ℕ) → Option (List ℕ) → Option (List ℕ)
or_else none other = other
or_else (some v) other = some v

-- What the loop keeps: the options are a map, and they are counted.
abbrev pub IsCounted : FileConfigs → Type 0
IsCounted s = IsMap s.options × (s.count ≡ length s.options)

add_option-IsCounted :
    (o : Option ConfigOption) (s : FileConfigs)
    → IsCounted s
    → length s.options + 1 < 2 ^ 32
    → IsCounted (add_option o s) × (length (add_option o s).options ≤ length s.options + 1)
unfolding add_option
add_option-IsCounted none s v h = (v, omega arith)
add_option-IsCounted (some o) s v h = elim (Option-cases (find_option s.options o.name)) [
  | inl e ↦ rw e ((((e, v.0), mod-eq_of_lt (omega (arith, v.1)) ∙ omega (arith, v.1)), omega arith))
  | inr (w, e) ↦ rw e (v, omega arith)
]

find_option-with :
    (o : Option ConfigOption) (s : FileConfigs) (os : List ConfigOption) (name : List ℕ)
    → or_else (find_option (add_option o s).options name) (find_option os name)
      ≡ or_else (find_option s.options name) (find_option (with_option o os) name)
unfolding add_option
find_option-with none s os name = refl
find_option-with (some o) s os name = elim (Bool-cases (same_text o.name name)) [
  | inl same ↦
      let here = find_option-if o os name same in
      let e = same_text-equal o.name name same in
      elim (Option-cases (find_option s.options o.name)) [
        | inl missing ↦
            let old : find_option s.options name ≡ none =
              ap (find_option s.options) (sym e) ∙ missing in
            rw missing (
              ap (λ v. or_else v (find_option os name)) (find_option-if o s.options name same)
              ∙ sym (ap₂ or_else old here))
        | inr (w, present) ↦
            let old : find_option s.options name ≡ some w =
              ap (find_option s.options) (sym e) ∙ present in
            rw present (
              ap (λ v. or_else v (find_option os name)) old
              ∙ sym (ap (λ v. or_else v (find_option (o ∷ os) name)) old))
      ]
  | inr other ↦
      let behind =
        ap (or_else (find_option s.options name)) (sym (find_option-if o os name other)) in
      elim (Bool-cases (is_none (find_option s.options o.name))) [
        | inl missing ↦ rw missing (
            ap (λ v. or_else v (find_option os name)) (find_option-if o s.options name other)
            ∙ behind)
        | inr present ↦ rw present behind
      ]
]

-- The result of the loop: for each name the value that it had, or the first that the lines give it.
abbrev pub Reads : FileConfigs → List ConfigOption → Outcome FileConfigs → Type 0
Reads s os outcome =
    (t : FileConfigs) × (outcome ≡ Outcome.returned t)
    × IsCounted t
    × ((name : List ℕ)
        → find_option t.options name ≡ or_else (find_option s.options name) (find_option os name))

or_else-none : (o : Option (List ℕ)) → or_else o none ≡ o
or_else-none none = refl
or_else-none (some v) = refl

pub read_lines-Reads :
    (fuel : ℕ) (text : List ℕ) (line_number : ℕ) (s : FileConfigs)
    → length text < fuel
    → length s.options + length text + 1 < 2 ^ 32
    → IsCounted s
    → Reads s (options_in (pieces 10 text)) (read_lines fuel false text line_number s)
unfolding read_lines
read_lines-Reads zero text line_number s h bound v = absurd (omega arith)
read_lines-Reads (suc fuel) text line_number s h bound v =
    let o = parse_line (get_line text).line in
    let (w, l) = add_option-IsCounted o s v (omega arith) in
    elim (Option-cases (get_line text).rest) [
      | inl e ↦
          rw (e, read_lines)
            (
              add_option o s,
              refl,
              w,
              λ name.
                  let lines = ap (λ ps. find_option (options_in ps) name) (get_line-none text e) in
                  sym (or_else-none (find_option (add_option o s).options name))
                  ∙ ap (or_else (find_option (add_option o s).options name))
                      (sym (find_option-nil name))
                  ∙ find_option-with o s [] name
                  ∙ ap (or_else (find_option s.options name)) (sym lines),
            )
      | inr (rest, e) ↦
          let (lines, shorter) = get_line-some text rest e in
          let (t, result, u, found) =
            read_lines-Reads fuel rest ((line_number + 1) % 2 ^ 32) (add_option o s) (omega arith)
              (omega arith) w in
          rw (e, read_lines)
            (
              t,
              result,
              u,
              λ name.
                  found name
                  ∙ find_option-with o s (options_in (pieces 10 rest)) name
                  ∙ ap
                      (λ ps.
                        or_else (find_option s.options name) (find_option (options_in ps) name))
                      (sym lines),
            )
    ]

-- A file that breaks off is never read to an end.
pub read_lines-threw :
    (fuel : ℕ) (text : List ℕ) (line_number : ℕ) (s : FileConfigs)
    → length text < fuel
    → (e : ConfigException) × (read_lines fuel true text line_number s ≡ Outcome.threw e)
unfolding read_lines
read_lines-threw zero text line_number s h = absurd (omega arith)
read_lines-threw (suc fuel) text line_number s h = elim (Option-cases (get_line text).rest) [
  | inl e ↦ rw (e, read_lines) (ConfigException.failed_read ((line_number + 1) % 2 ^ 32), refl)
  | inr (rest, e) ↦
      let (lines, shorter) = get_line-some text rest e in
      rw (e, read_lines)
        (read_lines-threw fuel rest ((line_number + 1) % 2 ^ 32)
          (add_option (parse_line (get_line text).line) s) (omega arith))
]
