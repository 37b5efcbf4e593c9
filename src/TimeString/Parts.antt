-- ===== src/TimeString/Parts.antt =====
-- src/common/Utilities/Timer.cpp: the numbers of a duration, and the text that `AddOut` makes of some.
use warhead_discord_client.Common.{
  ℕ, zero, suc, ◌+◌, ◌-◌, ◌*◌, ◌%◌, ◌^◌, ◌≤◌, ◌<◌, ◌≡◌, refl, sym, ap, ◌∙◌, true, false, Bool-cases,
  inl, inr, Option, some, List, [], ◌∷◌, ◌++◌, leb, append-nil, append_assoc, lt→ltb, ◌==◌,
  if◌then◌else◌, arith, All, length, take,
}
use native.Mathlib.Nat.{mod-eq_of_lt}
use warhead_discord_client.StringConvert.{to_chars}
use warhead_discord_client.StringConvert.RoundTrip.{to_string-to_chars}
use warhead_discord_client.TimeString.{
  TimeFormat, Part, Out, uint32, all_parts, word, appended, add_out, then_add, add_outs,
}

abbrev pub nonzero : List Part → List Part
nonzero [] = []
nonzero (p ∷ ps) = if p.time == 0 then nonzero ps else p ∷ nonzero ps

-- The sum of the numbers, each times the length of its unit.
abbrev pub total : List ℕ → List Part → ℕ
total units [] = 0
total [] (p ∷ ps) = 0
total (u ∷ us) (p ∷ ps) = p.time * u + total us ps

abbrev pub units : List ℕ
units = 86400000000 ∷ 3600000000 ∷ 60000000 ∷ 1000000 ∷ 1000 ∷ 1 ∷ []

pub all_parts-total : (count : ℕ) → count < 2 ^ 63 → total units (all_parts count) ≡ count
all_parts-total count h = rw (lt→ltb count (2 ^ 63) h) (omega arith)

pub all_parts-small : (count : ℕ) → count < 2 ^ 63 → All (λ p. p.time < 2 ^ 32) (all_parts count)
all_parts-small count h =
    rw (lt→ltb count (2 ^ 63) h)
      (omega arith, (omega arith, (omega arith, (omega arith, (omega arith, (omega arith, tt))))))

-- The texts that `AddOut` appends for some numbers.
abbrev pub out_text : TimeFormat → List Part → List ℕ
out_text format [] = []
out_text format (p ∷ ps) =
    (to_chars uint32 p.time ++ word format p.time p.words) ++ out_text format ps

add_out-enough :
    (format : TimeFormat) (n : ℕ) (p : Part) (o : Out) → n ≤ o.count → add_out format n p o ≡ some o
unfolding add_out
add_out-enough format n p o h = let e : leb n o.count ≡ true = ground arith in rw e refl

abbrev with_part : TimeFormat → Part → Out → Out
with_part format p o = record o {
  text = o.text ++ (to_chars uint32 p.time ++ word format p.time p.words);
  count = o.count + 1;
}

add_out-more :
    (format : TimeFormat) (n : ℕ) (p : Part) (o : Out)
    → o.count < n
    → p.time < 2 ^ 32
    → o.count + 1 < 2 ^ 8
    → add_out format n p o ≡ some (with_part format p o)
unfolding add_out
add_out-more format n p o h small k =
    let e : leb n o.count ≡ false = ground arith in
    let t : p.time % 2 ^ 32 ≡ p.time = mod-eq_of_lt small in
    rw (e, t)
      (ap (λ number. appended number (word format p.time p.words) o)
          (to_string-to_chars uint32 p.time (omega arith, omega arith) small)
        ∙ ap
            (λ c. some (record o {
              text = o.text ++ (to_chars uint32 p.time ++ word format p.time p.words);
              count = c;
            }))
            (mod-eq_of_lt k))

take-nil : (k : ℕ) → take {A = Part} k [] ≡ []
take-nil zero = refl
take-nil (suc k) = refl

abbrev pub AddsText : TimeFormat → ℕ → List Part → Out → Option Out → Type 0
AddsText format n ps o result =
    (o' : Out) × (result ≡ some o')
    × (o'.text ≡ o.text ++ out_text format (take (n - o.count) (nonzero ps)))

pub add_outs-AddsText :
    (format : TimeFormat) (n : ℕ) (ps : List Part) (o : Out)
    → All (λ p. p.time < 2 ^ 32) ps
    → o.count + length ps < 2 ^ 8
    → AddsText format n ps o (add_outs format n ps o)
unfolding add_outs
add_outs-AddsText format n [] o v h = (
  o,
  refl,
  sym (append-nil o.text) ∙ ap (λ ps. o.text ++ out_text format ps) (sym (take-nil (n - o.count))),
)
add_outs-AddsText format n (p ∷ ps) o v h = elim (Bool-cases (p.time == 0)) [
  | inl zero_time ↦ rw (zero_time, add_outs) (add_outs-AddsText format n ps o v.1 (omega arith))
  | inr other ↦ elim (Bool-cases (leb n o.count)) [
    | inl enough ↦
        let (o', e, text) = add_outs-AddsText format n ps o v.1 (omega arith) in
        let none_left : n - o.count ≡ 0 = ground arith in
        rw other (
          o',
          ap (λ r. then_add r (add_outs format n ps)) (add_out-enough format n p o (ground arith))
              ∙ e,
          text
              ∙ ap (λ k. o.text ++ out_text format (take k (nonzero ps))) none_left
              ∙ sym (ap (λ k. o.text ++ out_text format (take k (p ∷ nonzero ps))) none_left),
        )
    | inr more ↦
        let below : o.count < n = ground arith in
        let next = with_part format p o in
        let (o', e, text) = add_outs-AddsText format n ps next v.1 (omega arith) in
        let left : n - o.count ≡ suc (n - (o.count + 1)) = omega arith in
        rw other (
          o',
          ap (λ r. then_add r (add_outs format n ps))
                (add_out-more format n p o below v.0 (omega arith))
              ∙ e,
          text
              ∙ append_assoc o.text (to_chars uint32 p.time ++ word format p.time p.words)
                  (out_text format (take (n - (o.count + 1)) (nonzero ps)))
              ∙ sym (ap (λ k. o.text ++ out_text format (take k (p ∷ nonzero ps))) left),
        )
  ]
]
