-- ===== src/StringConvert/Digits.antt =====
-- src/common/Utilities/StringConvert.h: the number that digits spell.
use warhead_discord_client.Common.{
  ℕ, zero, suc, ◌+◌, ◌*◌, ◌/◌, ◌%◌, ◌^◌, ◌≤◌, ◌<◌, ◌≡◌, ◌≢◌, refl, sym, ap, ◌∙◌, Bool, true,
  Bool-cases, inl, inr, List, [], ◌∷◌, ◌++◌, ltb, if◌then◌else◌, arith, All, length, length-append,
  lt→ltb, ltb→lt,
}
use native.Mathlib.Nat.{pow-suc}
use warhead_discord_client.StringConvert.{digit_of, Scanned, scan, decimal}

abbrev pub AreDigits : ℕ → List ℕ → Type 0
AreDigits base str = All (λ c. digit_of c < base) str

-- The number that digits spell behind n.
abbrev pub spelled : ℕ → ℕ → List ℕ → ℕ
spelled base n [] = n
spelled base n (c ∷ cs) = spelled base (n * base + digit_of c) cs

abbrev pub any_digit : Bool → List ℕ → Bool
any_digit any [] = any
any_digit any (c ∷ cs) = true

abbrev pub whole : Bool → ℕ → Scanned
whole any n = record { any = any; number = n; rest = [] }

any_digit-true : (str : List ℕ) → any_digit true str ≡ true
any_digit-true [] = refl
any_digit-true (c ∷ cs) = refl

pub scan-digits :
    (base : ℕ) (str : List ℕ) (any : Bool) (n : ℕ)
    → AreDigits base str
    → scan base str any n ≡ whole (any_digit any str) (spelled base n str)
unfolding scan
scan-digits base [] any n v = refl
scan-digits base (c ∷ cs) any n v = rw (lt→ltb (digit_of c) base v.0) (
    scan-digits base cs true (n * base + digit_of c) v.1
    ∙ ap (λ b. whole b (spelled base (n * base + digit_of c) cs)) (any_digit-true cs))

pub scan-rest :
    (base : ℕ) (str : List ℕ) (any : Bool) (n : ℕ)
    → length (scan base str any n).rest ≡ 0
    → AreDigits base str
unfolding scan
scan-rest base [] any n e = tt
scan-rest base (c ∷ cs) any n e = elim (Bool-cases (ltb (digit_of c) base)) [
  | inl b ↦ (ltb→lt (digit_of c) base b, scan-rest base cs true (n * base + digit_of c) (rw b at e))
  | inr b ↦ absurd (let f : suc (length cs) ≡ 0 = rw b at e in omega arith)
]

spelled-snoc :
    (base n : ℕ) (str : List ℕ) (c : ℕ)
    → spelled base n (str ++ (c ∷ [])) ≡ spelled base n str * base + digit_of c
spelled-snoc base n [] c = refl
spelled-snoc base n (d ∷ ds) c = spelled-snoc base (n * base + digit_of d) ds c

AreDigits-snoc :
    (base : ℕ) (str : List ℕ) (c : ℕ)
    → AreDigits base str
    → digit_of c < base
    → AreDigits base (str ++ (c ∷ []))
AreDigits-snoc base [] c v w = (w, tt)
AreDigits-snoc base (d ∷ ds) c v w = (v.0, AreDigits-snoc base ds c v.1 w)

digit_of-decimal : (d : ℕ) → d < 10 → digit_of (48 + d) ≡ d
digit_of-decimal d h = ground arith

decimal-zero : (n : ℕ) → decimal zero n ≡ []
unfolding decimal
decimal-zero n = refl

decimal-if :
    (fuel n : ℕ) {b : Bool}
    → ltb n 10 ≡ b
    → decimal (suc fuel) n
      ≡ (if b then (48 + n) ∷ [] else decimal fuel (n / 10) ++ ((48 + n % 10) ∷ []))
unfolding decimal
decimal-if fuel n h = rw h refl

pub decimal-AreDigits : (fuel n : ℕ) → AreDigits 10 (decimal fuel n)
unfolding decimal
decimal-AreDigits zero n = tt
decimal-AreDigits (suc fuel) n = elim (Bool-cases (ltb n 10)) [
  | inl b ↦ rw b (let d = digit_of-decimal n (ltb→lt n 10 b) in (ground arith, tt))
  | inr b ↦ rw b (
      AreDigits-snoc 10 (decimal fuel (n / 10)) (48 + n % 10) (decimal-AreDigits fuel (n / 10))
        (let d = digit_of-decimal (n % 10) (omega arith) in omega arith))
]

-- The digits spell the number again.
pub spelled-decimal : (fuel n : ℕ) → n < 2 ^ fuel → spelled 10 0 (decimal fuel n) ≡ n
spelled-decimal zero n h = ap (spelled 10 0) (decimal-zero n) ∙ omega arith
spelled-decimal (suc fuel) n h = elim (Bool-cases (ltb n 10)) [
  | inl b ↦
      ap (spelled 10 0) (decimal-if fuel n b) ∙ omega (arith, digit_of-decimal n (ltb→lt n 10 b))
  | inr b ↦
      ap (spelled 10 0) (decimal-if fuel n b)
      ∙ spelled-snoc 10 0 (decimal fuel (n / 10)) (48 + n % 10)
      ∙ omega (
        arith,
        spelled-decimal fuel (n / 10) (omega (arith, pow-suc 2 fuel)),
        digit_of-decimal (n % 10) (omega arith),
      )
]

pub length-decimal : (fuel n k : ℕ) → n < 10 ^ suc k → length (decimal fuel n) ≤ suc k
length-decimal zero n k h = omega (arith, ap length (decimal-zero n))
length-decimal (suc fuel) n zero h = elim (Bool-cases (ltb n 10)) [
  | inl b ↦ omega (arith, ap length (decimal-if fuel n b))
  | inr b ↦ absurd (ground arith)
]
length-decimal (suc fuel) n (suc k) h = elim (Bool-cases (ltb n 10)) [
  | inl b ↦ omega (arith, ap length (decimal-if fuel n b))
  | inr b ↦ omega (
    arith,
    ap length (decimal-if fuel n b),
    length-append (decimal fuel (n / 10)) ((48 + n % 10) ∷ []),
    length-decimal fuel (n / 10) k (omega (arith, pow-suc 10 (suc k))),
  )
]

pub decimal-nonempty : (fuel n : ℕ) → 1 ≤ fuel → decimal fuel n ≢ []
decimal-nonempty zero n h e = absurd (omega arith)
decimal-nonempty (suc fuel) n h e = elim (Bool-cases (ltb n 10)) [
  | inl b ↦ let f = ap length (sym (decimal-if fuel n b) ∙ e) in omega arith
  | inr b ↦
      let f = ap length (sym (decimal-if fuel n b) ∙ e) in
      omega (arith, length-append (decimal fuel (n / 10)) ((48 + n % 10) ∷ []))
]
