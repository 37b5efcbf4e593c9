-- ===== src/TimeString/Text.antt =====
-- src/common/Utilities/Timer.cpp: the text of a duration is that of its first numbers, with one space between.
use warhead_discord_client.Common.{
  ℕ, zero, suc, ◌^◌, ◌<◌, ◌≡◌, ◌≢◌, refl, sym, ap, ap₂, ◌∙◌, Bool-cases, inl, inr, some, List, [],
  ◌∷◌, ◌++◌, map, append-nil, append_assoc, ◌==◌, arith, All, length, take, length-append,
}
use warhead_discord_client.StringConvert.{to_chars}
use warhead_discord_client.StringFormat.{trim_right_in_place}
use warhead_discord_client.StringFormat.Trimming.{
  EndsBare, EndsBare-append, trim_right_in_place-append,
}
use warhead_discord_client.Tokenize.Pieces.{joined}
use warhead_discord_client.TimeString.{
  TimeFormat, full_text, short_text, numeric, Words, Part, uint32, all_parts, word, add_outs,
  without_last, no_out, trimmed, to_time_string,
}
use warhead_discord_client.TimeString.Parts.{
  nonzero, total, units, all_parts-total, all_parts-small, out_text, add_outs-AddsText,
}

-- A number with its word, without the space behind it.
abbrev pub part_text : TimeFormat → Part → List ℕ
part_text format p = to_chars uint32 p.time ++ without_last (word format p.time p.words)

-- A text that does not end with white space, and one space.
abbrev IsWord : List ℕ → Type 0
IsWord w =
    (w ≡ without_last w ++ (32 ∷ [])) × (0 < length (without_last w)) × EndsBare (without_last w)

abbrev AreWords : Words → Type 0
AreWords w = IsWord w.short × IsWord w.full_one × IsWord w.full

all_parts-AreWords : (count : ℕ) → All (λ p. AreWords p.words) (all_parts count)
all_parts-AreWords count = ground arith

IsWord-word :
    (format : TimeFormat) (p : Part)
    → format ≢ numeric
    → AreWords p.words
    → IsWord (word format p.time p.words)
IsWord-word short_text p n (s, o, f) = s
IsWord-word full_text p n (s, o, f) = elim (Bool-cases (p.time == 1)) [
  | inl e ↦ rw e o
  | inr e ↦ rw e f
]
IsWord-word numeric p n (s, o, f) = absurd (n refl)

EndsBare-behind : (xs ys : List ℕ) → 0 < length ys → EndsBare ys → EndsBare (xs ++ ys)
EndsBare-behind xs [] h v = absurd (omega arith)
EndsBare-behind xs (c ∷ cs) h v = EndsBare-append xs c cs v

-- The texts that are appended are those of the parts with a space behind each.
abbrev Ends : List ℕ → List ℕ → Type 0
Ends text bare = (text ≡ bare ++ (32 ∷ [])) × (0 < length bare) × EndsBare bare

out_text-Ends :
    (format : TimeFormat) (p : Part) (ps : List Part)
    → format ≢ numeric
    → All (λ p. AreWords p.words) (p ∷ ps)
    → Ends (out_text format (p ∷ ps)) (joined 32 (map (part_text format) (p ∷ ps)))
out_text-Ends format p [] n v =
    let number = to_chars uint32 p.time in
    let w = word format p.time p.words in
    let (e, some_word, bare) = IsWord-word format p n v.0 in
    (
      append-nil (number ++ w)
          ∙ ap (λ t. number ++ t) e
          ∙ sym (append_assoc number (without_last w) (32 ∷ [])),
      omega (arith, length-append number (without_last w)),
      EndsBare-behind number (without_last w) some_word bare,
    )
out_text-Ends format p (q ∷ ps) n v =
    let number = to_chars uint32 p.time in
    let w = word format p.time p.words in
    let (e, some_word, bare) = IsWord-word format p n v.0 in
    let rest = joined 32 (map (part_text format) (q ∷ ps)) in
    let (f, some_rest, bare_rest) = out_text-Ends format q ps n v.1 in
    let first = number ++ without_last w in
    (
      ap₂ (λ t u. t ++ u)
            (ap (λ t. number ++ t) e ∙ sym (append_assoc number (without_last w) (32 ∷ []))) f
          ∙ append_assoc first (32 ∷ []) (rest ++ (32 ∷ []))
          ∙ sym (append_assoc first (32 ∷ rest) (32 ∷ [])),
      omega (arith, length-append first (32 ∷ rest)),
      EndsBare-behind first (32 ∷ rest) (omega arith)
          (EndsBare-behind (32 ∷ []) rest some_rest bare_rest),
    )

nonzero-AreWords :
    (ps : List Part) → All (λ p. AreWords p.words) ps → All (λ p. AreWords p.words) (nonzero ps)
nonzero-AreWords [] v = tt
nonzero-AreWords (p ∷ ps) v = elim (Bool-cases (p.time == 0)) [
  | inl e ↦ rw e (nonzero-AreWords ps v.1)
  | inr e ↦ rw e (v.0, nonzero-AreWords ps v.1)
]

take-AreWords :
    (n : ℕ) (ps : List Part)
    → All (λ p. AreWords p.words) ps
    → All (λ p. AreWords p.words) (take n ps)
take-AreWords zero ps v = tt
take-AreWords (suc n) [] v = tt
take-AreWords (suc n) (p ∷ ps) v = (v.0, take-AreWords n ps v.1)

trimmed-parts :
    (format : TimeFormat) (ps : List Part)
    → format ≢ numeric
    → All (λ p. AreWords p.words) ps
    → trim_right_in_place (out_text format ps) ≡ joined 32 (map (part_text format) ps)
trimmed-parts format [] n v = trim_right_in_place-append [] [] tt tt
trimmed-parts format (p ∷ ps) n v =
    let (e, some_text, bare) = out_text-Ends format p ps n v in
    let text = joined 32 (map (part_text format) (p ∷ ps)) in
    ap trim_right_in_place e ∙ trim_right_in_place-append text (32 ∷ []) bare (refl, tt)

text_of :
    (format : TimeFormat) (n count : ℕ)
    → format ≢ numeric
    → count < 2 ^ 63
    → trimmed (add_outs format n (all_parts count) no_out)
      ≡ some (joined 32 (map (part_text format) (take n (nonzero (all_parts count)))))
unfolding trimmed
text_of format n count h small =
    let shown = take n (nonzero (all_parts count)) in
    let (o, e, text) =
      add_outs-AddsText format n (all_parts count) no_out (all_parts-small count small)
        (omega arith) in
    ap trimmed e
    ∙ ap (λ t. some (trim_right_in_place t))
        (text
          ∙ ap (λ k. out_text format (take k (nonzero (all_parts count)))) {y = n} (omega arith))
    ∙ ap some (
        trimmed-parts format shown h (
          take-AreWords n (nonzero (all_parts count))
            (nonzero-AreWords (all_parts count) (all_parts-AreWords count))))

-- `ToTimeString` of a duration that is not negative, in words: the first `out_count` of the numbers of days,
-- hours, minutes, seconds, milliseconds and microseconds that are not zero, each with its word, and one
-- space between them. Times the lengths of their units all these numbers add up to the duration.
pub to_time_string-joined :
    (plain padded : ℕ → List ℕ) (count out_count : ℕ) (format : TimeFormat)
    → format ≢ numeric
    → count < 2 ^ 63
    → (to_time_string plain padded count out_count format
        ≡ some (joined 32 (map (part_text format) (take out_count (nonzero (all_parts count))))))
      × (total units (all_parts count) ≡ count)
unfolding to_time_string
to_time_string-joined plain padded count out_count full_text h small =
    (text_of full_text out_count count h small, all_parts-total count small)
to_time_string-joined plain padded count out_count short_text h small =
    (text_of short_text out_count count h small, all_parts-total count small)
to_time_string-joined plain padded count out_count numeric h small = absurd (h refl)
