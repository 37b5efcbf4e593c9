-- ===== src/StringConvert/Reading.antt =====
-- src/common/Utilities/StringConvert.h: which texts `FromString` takes for a number, and for which.
use warhead_discord_client.Common.{
  ℕ, ◌+◌, ◌-◌, ◌%◌, ◌^◌, ◌≤◌, ◌<◌, ◌≡◌, ◌≢◌, ◌↔◌, ◌⊎◌, refl, sym, ap, ◌∙◌, Bool, true, false, ◌&&◌,
  Bool-cases, inl, inr, none, some, List, [], ◌∷◌, ◌==◌, if◌then◌else◌, arith, length, lt→ltb,
}
use warhead_discord_client.StringConvert.{
  Integral, digit_of, Scanned, scan, if_whole, from_positive, from_negative, from_chars,
  from_string,
}
use warhead_discord_client.StringConvert.Digits.{
  AreDigits, spelled, any_digit, scan-digits, scan-rest,
}

-- Digits of which the number is below a limit.
abbrev pub SpellsBelow : ℕ → ℕ → List ℕ → Type 0
SpellsBelow base limit str = (str ≢ []) × AreDigits base str × (spelled base 0 str < limit)

-- The smallest number that is too large for a type.
abbrev pub limit : Integral → ℕ
limit t = if t.is_signed then 2 ^ (t.bits - 1) else 2 ^ t.bits

-- What a text denotes in a type: a number of the type's range, after a minus sign only in a signed type.
abbrev pub Denotes : Integral → ℕ → List ℕ → ℕ → Type 0
Denotes t base str v =
    (SpellsBelow base (limit t) str × (v ≡ spelled base 0 str))
    ⊎ ((digits : List ℕ) × (str ≡ 45 ∷ digits)
        × (t.is_signed ≡ true)
        × SpellsBelow base (2 ^ (t.bits - 1) + 1) digits
        × (v ≡ (2 ^ t.bits - spelled base 0 digits) % 2 ^ t.bits))

if_whole-cases :
    (s : Scanned) (limit pattern v : ℕ)
    → if_whole s limit pattern ≡ some v
    → (s.any ≡ true) × (length s.rest ≡ 0) × (s.number < limit) × (v ≡ pattern)
if_whole-cases s limit pattern v e = ground arith

SpellsBelow-scan :
    (base l pattern v : ℕ) (str : List ℕ)
    → if_whole (scan base str false 0) l pattern ≡ some v
    → SpellsBelow base l str × (v ≡ pattern) × ((scan base str false 0).number ≡ spelled base 0 str)
SpellsBelow-scan base l pattern v str e =
    let (any, rest, below, same) = if_whole-cases (scan base str false 0) l pattern v e in
    let digits = scan-rest base str false 0 rest in
    let s = scan-digits base str false 0 digits in
    let n = ap (λ r. r.number) s in
    ((some_digit str (sym (ap (λ r. r.any) s) ∙ any), digits, omega arith), same, n)
  where
    some_digit : (str : List ℕ) → any_digit false str ≡ true → str ≢ []
    some_digit [] e f = absurd (let c : false ≡ true = e in cc)
    some_digit (c ∷ cs) e f = absurd (let g : c ∷ cs ≡ [] = f in cc)

scan-SpellsBelow :
    (base l : ℕ) (pattern : ℕ → ℕ) (str : List ℕ)
    → SpellsBelow base l str
    → if_whole (scan base str false 0) l (pattern (scan base str false 0).number)
      ≡ some (pattern (spelled base 0 str))
scan-SpellsBelow base l pattern [] (some_digit, v, below) = absurd (some_digit refl)
scan-SpellsBelow base l pattern (c ∷ cs) (some_digit, v, below) =
    ap (λ s. if_whole s l (pattern s.number)) (scan-digits base (c ∷ cs) false 0 v)
    ∙ ap (λ b. if b then some (pattern (spelled base 0 (c ∷ cs))) else none)
        (lt→ltb (spelled base 0 (c ∷ cs)) l below)

from_chars-minus :
    (t : Integral) (base c : ℕ) (cs : List ℕ) {b : Bool}
    → (t.is_signed && (c == 45)) ≡ b
    → from_chars t base (c ∷ cs)
      ≡ (if b then from_negative t base cs else from_positive t base (c ∷ cs))
unfolding from_chars
from_chars-minus t base c cs e = rw e refl

digit_of-minus : digit_of 45 ≡ 36
digit_of-minus = refl

no_digit :
    (t : Integral) (base c : ℕ) → base ≤ 36 → digit_of c < base → (t.is_signed && (c == 45)) ≡ false
no_digit t base c h d = elim (Bool-cases (c == 45)) [
  | inl b ↦ let e : c ≡ 45 = ground arith in absurd (omega (arith, ap digit_of e, digit_of-minus))
  | inr b ↦ rw b (never t.is_signed)
]
  where
    never : (b : Bool) → (b && false) ≡ false
    never true = refl
    never false = refl

Denotes-from_chars :
    (t : Integral) (base v : ℕ) (str : List ℕ)
    → from_chars t base str ≡ some v
    → Denotes t base str v
unfolding from_chars
Denotes-from_chars t base v [] e = absurd (let c : none ≡ some v = e in cc)
Denotes-from_chars t base v (c ∷ cs) e = elim (Bool-cases (t.is_signed && (c == 45))) [
  | inl b ↦
      let (spells, same, n) =
        SpellsBelow-scan base (2 ^ (t.bits - 1) + 1)
          ((2 ^ t.bits - (scan base cs false 0).number) % 2 ^ t.bits) v cs
          (sym (from_chars-minus t base c cs b) ∙ e) in
      let (signed, is_minus) = both t.is_signed (c == 45) b in
      inr (
        cs,
        ap (λ x. x ∷ cs) (let h = is_minus in ground arith),
        signed,
        spells,
        same ∙ ap (λ m. (2 ^ t.bits - m) % 2 ^ t.bits) n,
      )
  | inr b ↦
      let (spells, same, n) =
        SpellsBelow-scan base (limit t) (scan base (c ∷ cs) false 0).number v (c ∷ cs)
          (sym (from_chars-minus t base c cs b) ∙ e) in
      inl (spells, same ∙ n)
]
  where
    both : (a b : Bool) → (a && b) ≡ true → (a ≡ true) × (b ≡ true)
    both true true h = (refl, refl)
    both true false h = (refl, h)
    both false b h = (h, absurd (let c : false ≡ true = h in cc))

pub from_chars-Denotes :
    (t : Integral) (base v : ℕ) (str : List ℕ)
    → base ≤ 36
    → Denotes t base str v
    → from_chars t base str ≡ some v
unfolding from_positive from_negative
from_chars-Denotes t base v [] h (inl ((some_digit, digits, below), same)) =
    absurd (some_digit refl)
from_chars-Denotes t base v (c ∷ cs) h (inl ((some_digit, digits, below), same)) =
    from_chars-minus t base c cs (no_digit t base c h digits.0)
    ∙ scan-SpellsBelow base (limit t) (λ n. n) (c ∷ cs) (some_digit, digits, below)
    ∙ ap some (sym same)
from_chars-Denotes t base v str h (inr (digits, e, signed, spells, same)) =
    ap (from_chars t base) e
    ∙ from_chars-minus t base 45 digits {b = true} (rw signed refl)
    ∙ scan-SpellsBelow base (2 ^ (t.bits - 1) + 1) (λ n. (2 ^ t.bits - n) % 2 ^ t.bits) digits
        spells
    ∙ ap some (sym same)

-- `FromString` in a base of 2 to 36 gives a number exactly if the text is digits of the base, after a minus
-- sign only in a signed type, that spell a number of the type's range; this is the number that it gives.
pub from_string-Denotes :
    (t : Integral) (base v : ℕ) (str : List ℕ)
    → 2 ≤ base
    → base ≤ 36
    → (from_string t str base ≡ some v) ↔ Denotes t base str v
unfolding from_string
from_string-Denotes t base v str low high =
    let e : (base == 0) ≡ false = ground arith in
    rw e (Denotes-from_chars t base v str, from_chars-Denotes t base v str high)
