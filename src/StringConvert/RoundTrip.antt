-- ===== src/StringConvert/RoundTrip.antt =====
-- src/common/Utilities/StringConvert.h: `FromString` reads back what `ToString` has written.
use warhead_discord_client.Common.{
  ℕ, suc, ◌+◌, ◌-◌, ◌*◌, ◌%◌, ◌^◌, ◌≤◌, ◌<◌, ◌≡◌, ◌⊎◌, refl, sym, ap, ◌∙◌, Bool, true, false,
  Bool-cases, inl, inr, none, some, List, ◌∷◌, leb, if◌then◌else◌, arith, length,
}
use native.Mathlib.Nat.{mod-eq_of_lt, pow-suc, pow-le-pow_right}
use warhead_discord_client.StringConvert.{
  Integral, decimal, to_chars, to_string, from_string, bool_from_string, bool_to_string,
}
use warhead_discord_client.StringConvert.Digits.{
  spelled, decimal-AreDigits, spelled-decimal, length-decimal, decimal-nonempty,
}
use warhead_discord_client.StringConvert.Reading.{limit, SpellsBelow, Denotes, from_string-Denotes}

-- The types of at most 64 bits.
abbrev pub IsNative : Integral → Type 0
IsNative t = (1 ≤ t.bits) × (t.bits ≤ 64)

half : (t : Integral) → IsNative t → 2 ^ t.bits ≡ 2 * 2 ^ (t.bits - 1)
half t v =
    ap (λ n. 2 ^ n) {y = suc (t.bits - 1)} (omega arith) ∙ pow-suc 2 (t.bits - 1) ∙ omega arith

fits : (t : Integral) → IsNative t → 2 ^ t.bits ≤ 2 ^ 64
fits t v = pow-le-pow_right (omega arith) v.1

-- The digits of a number, and a minus sign before those of a negative one.
to_chars-cases :
    (t : Integral) (val : ℕ)
    → ((t.is_signed ≡ true)
        × (2 ^ (t.bits - 1) ≤ val)
        × (to_chars t val ≡ 45 ∷ decimal t.bits (2 ^ t.bits - val)))
      ⊎ (((t.is_signed ≡ false) ⊎ (val < 2 ^ (t.bits - 1))) × (to_chars t val ≡ decimal t.bits val))
unfolding to_chars decimal
to_chars-cases t val = elim (Bool-cases t.is_signed) [
  | inl s ↦ elim (Bool-cases (leb (2 ^ (t.bits - 1)) val)) [
    | inl b ↦ inl (s, ground arith, rw (s, b) refl)
    | inr b ↦ inr (inr (ground arith), rw (s, b) refl)
  ]
  | inr s ↦ inr (inl s, rw s refl)
]

decimal-SpellsBelow :
    (bits n limit : ℕ) → 1 ≤ bits → n < 2 ^ bits → n < limit → SpellsBelow 10 limit (decimal bits n)
decimal-SpellsBelow bits n limit low h below =
    (decimal-nonempty bits n low, decimal-AreDigits bits n, omega (arith, spelled-decimal bits n h))

to_chars-Denotes :
    (t : Integral) (val : ℕ) → IsNative t → val < 2 ^ t.bits → Denotes t 10 (to_chars t val) val
to_chars-Denotes t val v h = elim (to_chars-cases t val) [
  | inl (signed, negative, e) ↦
      let m = 2 ^ t.bits - val in
      let power : 1 ≤ 2 ^ (t.bits - 1) =
        pow-le-pow_right {n = 2} (omega arith) {i = 0} {j = t.bits - 1} (omega arith) in
      let below : m < 2 ^ t.bits = omega (arith, half t v) in
      inr (
        decimal t.bits m,
        e,
        signed,
        decimal-SpellsBelow t.bits m (2 ^ (t.bits - 1) + 1) v.0 below (omega (arith, half t v)),
        sym (
            ap (λ x. x % 2 ^ t.bits) {y = val} (omega (arith, spelled-decimal t.bits m below))
            ∙ mod-eq_of_lt h),
      )
  | inr (positive, e) ↦ inl (
    rw e (decimal-SpellsBelow t.bits val (limit t) v.0 h (below positive)),
    sym (ap (spelled 10 0) e ∙ spelled-decimal t.bits val h),
  )
]
  where
    below : ((t.is_signed ≡ false) ⊎ (val < 2 ^ (t.bits - 1))) → val < limit t
    below (inl s) = rw s h
    below (inr small) = elim (Bool-cases t.is_signed) [ inl s ↦ rw s small | inr s ↦ rw s h ]

to_chars-length :
    (t : Integral) (val : ℕ) → IsNative t → val < 2 ^ t.bits → length (to_chars t val) ≤ 20
to_chars-length t val v h = elim (to_chars-cases t val) [
  | inl (signed, negative, e) ↦ omega (
    arith,
    ap length e,
    length-decimal t.bits (2 ^ t.bits - val) 18 (omega (arith, half t v, fits t v)),
  )
  | inr (positive, e) ↦
      omega (arith, ap length e, length-decimal t.bits val 19 (omega (arith, fits t v)))
]

-- The buffer is large enough.
pub to_string-to_chars :
    (t : Integral) (val : ℕ)
    → IsNative t
    → val < 2 ^ t.bits
    → to_string t val ≡ some (to_chars t val)
unfolding to_string
to_string-to_chars t val v h =
    ap (λ b. if b then some (to_chars t val) else none)
      (le→leb (length (to_chars t val)) 20 (to_chars-length t val v h))
  where
    le→leb : (a b : ℕ) → a ≤ b → leb a b ≡ true
    le→leb a b h = ground arith

pub from_string-to_chars :
    (t : Integral) (val : ℕ)
    → IsNative t
    → val < 2 ^ t.bits
    → from_string t (to_chars t val) 10 ≡ some val
from_string-to_chars t val v h =
    (from_string-Denotes t 10 val (to_chars t val) (omega arith) (omega arith)).1
      (to_chars-Denotes t val v h)

-- For a type of at most 64 bits `ToString` writes every number of the type, as its 20 characters are
-- enough, and `FromString` reads the number back.
pub from_string-to_string :
    (t : Integral) (val : ℕ)
    → IsNative t
    → val < 2 ^ t.bits
    → (str : List ℕ) × (to_string t val ≡ some str) × (from_string t str 10 ≡ some val)
from_string-to_string t val v h = (
  to_chars t val,
  to_string-to_chars t val v h,
  (from_string-Denotes t 10 val (to_chars t val) (omega arith) (omega arith)).1
      (to_chars-Denotes t val v h),
)

pub bool_from_string-bool_to_string :
    (val strict : Bool) → bool_from_string (bool_to_string val) strict ≡ some val
unfolding bool_from_string bool_to_string
bool_from_string-bool_to_string true strict = refl
bool_from_string-bool_to_string false true = refl
bool_from_string-bool_to_string false false = refl
