-- ===== src/EnumFlag/Sets.antt =====
-- src/common/EnumUtil/EnumFlag.h: the operations on flags are those on sets of bits.
use Prim.Native.Nat.{bit_and, bit_or, bit_and-bitwise}
use native.Mathlib.Nat.{pow-suc}
use warhead_discord_client.Common.{
  ℕ, zero, suc, ◌-◌, ◌/◌, ◌%◌, ◌^◌, ◌≤◌, ◌<◌, min, max, ◌≡◌, ◌≢◌, ◌↔◌, refl, ap, ◌∙◌, true, false,
  arith, ℕ_discrete,
}
use warhead_discord_client.Common.Bits.{and_lowest, or_lowest}
use warhead_discord_client.EnumFlag.{
  flag_and, flag_or, flag_not, remove_flag, has_flag, has_all_flags,
}

-- The i-th bit of a number.
abbrev pub bit : ℕ → ℕ → ℕ
bit zero v = v % 2
bit (suc i) v = bit i (v / 2)

bit-and : (i a b : ℕ) → bit i (bit_and a b) ≡ min (bit i a) (bit i b)
bit-and zero a b = omega (arith, and_lowest a b)
bit-and (suc i) a b = ap (bit i) (omega (arith, and_lowest a b)) ∙ bit-and i (a / 2) (b / 2)

bit-or : (i a b : ℕ) → bit i (bit_or a b) ≡ max (bit i a) (bit i b)
bit-or zero a b = omega (arith, or_lowest a b)
bit-or (suc i) a b = ap (bit i) (omega (arith, or_lowest a b)) ∙ bit-or i (a / 2) (b / 2)

bit-small : (i v : ℕ) → bit i v ≤ 1
bit-small zero v = omega arith
bit-small (suc i) v = bit-small i (v / 2)

bit-zero : (i : ℕ) → bit i 0 ≡ 0
bit-zero zero = refl
bit-zero (suc i) = bit-zero i

-- Beyond the width a number has no bits, and within it the complement has the others.
bit-not :
    (w i v f : ℕ)
    → v < 2 ^ w
    → f < 2 ^ w
    → min (bit i v) (bit i (2 ^ w - 1 - f)) ≡ bit i v - bit i f
bit-not zero i v f h k =
    let e : v ≡ 0 = omega arith in let z : bit i v ≡ 0 = ap (bit i) e ∙ bit-zero i in omega arith
bit-not (suc w) zero v f h k = omega (arith, pow-suc 2 w)
bit-not (suc w) (suc i) v f h k =
    ap (λ x. min (bit i (v / 2)) (bit i x)) {y = 2 ^ w - 1 - f / 2} (omega (arith, pow-suc 2 w))
    ∙ bit-not w i (v / 2) (f / 2) (omega (arith, pow-suc 2 w)) (omega (arith, pow-suc 2 w))

-- Two numbers with the same bits.
same_bits : (w v u : ℕ) → v < 2 ^ w → u < 2 ^ w → ((i : ℕ) → bit i v ≡ bit i u) → v ≡ u
same_bits zero v u h k e = omega arith
same_bits (suc w) v u h k e = omega (
  arith,
  e 0,
  same_bits w (v / 2) (u / 2) (omega (arith, pow-suc 2 w)) (omega (arith, pow-suc 2 w))
      (λ i. e (suc i)),
)

-- A bit of a number that is not zero.
some_bit : (w v : ℕ) → v < 2 ^ w → v ≢ 0 → (i : ℕ) × (bit i v ≡ 1)
some_bit zero v h n = absurd (n (omega arith))
some_bit (suc w) v h n = elim (ℕ_discrete (v % 2) 1) [
  | yes e ↦ (0, e)
  | no m ↦
      let (i, e) = some_bit w (v / 2) (omega (arith, pow-suc 2 w)) (λ z. n (ground arith)) in
      (suc i, e)
]

bit_and-bound : (w a b : ℕ) → a < 2 ^ w → bit_and a b < 2 ^ w
bit_and-bound zero a b h =
    let e : a ≡ 0 = omega arith in omega (arith, ap (λ x. bit_and x b) e, bit_and-bitwise 0 b)
bit_and-bound (suc w) a b h = omega (
  arith,
  and_lowest a b,
  pow-suc 2 w,
  bit_and-bound w (a / 2) (b / 2) (omega (arith, pow-suc 2 w)),
)

-- A bit that two numbers share, and the bits of a number all in another.
abbrev pub Meets : ℕ → ℕ → Type 0
Meets value flag = (i : ℕ) × (bit i value ≡ 1) × (bit i flag ≡ 1)

abbrev pub Includes : ℕ → ℕ → Type 0
Includes value flags = (i : ℕ) → bit i flags ≤ bit i value

has_flag-Meets : (w v f : ℕ) → v < 2 ^ w → (has_flag v f ≡ true) ↔ Meets v f
unfolding has_flag flag_and
has_flag-Meets w v f h = (
  λ e.
      let n : bit_and v f ≢ 0 = λ z. absurd (let c : false ≡ true = rw z at e in cc) in
      let (i, b) = some_bit w (bit_and v f) (bit_and-bound w v f h) n in
      let m = bit-and i v f in (i, omega (arith, bit-small i v), omega (arith, bit-small i f)),
  λ (i, a, b). elim (ℕ_discrete (bit_and v f) 0) [
    | yes z ↦ absurd (omega (arith, bit-and i v f, ap (bit i) z, bit-zero i))
    | no n ↦ ground arith
  ],
)

has_all_flags-Includes :
    (w v f : ℕ) → v < 2 ^ w → f < 2 ^ w → (has_all_flags v f ≡ true) ↔ Includes v f
unfolding has_all_flags flag_and
has_all_flags-Includes w v f h k = (
  λ e i. let s : bit_and v f ≡ f = ground arith in omega (arith, bit-and i v f, ap (bit i) s),
  λ g.
      let s =
        same_bits w (bit_and v f) f (bit_and-bound w v f h) k
          (λ i. omega (arith, bit-and i v f, g i)) in
      ground arith,
)

-- On numbers below 2 ^ w the operations on flags are those on sets of bits: `&` is the bits of both, `|` the
-- bits of either, and `RemoveFlag` those of the value that are not of the flag; `HasFlag` holds exactly
-- if a bit is shared, and `HasAllFlags` if all bits of the flags are bits of the value.
pub flags-AreSets :
    (w value flag : ℕ)
    → value < 2 ^ w
    → flag < 2 ^ w
    → ((i : ℕ) → bit i (flag_and value flag) ≡ min (bit i value) (bit i flag))
      × ((i : ℕ) → bit i (flag_or value flag) ≡ max (bit i value) (bit i flag))
      × ((i : ℕ) → bit i (remove_flag w value flag) ≡ bit i value - bit i flag)
      × ((has_flag value flag ≡ true) ↔ Meets value flag)
      × ((has_all_flags value flag ≡ true) ↔ Includes value flag)
unfolding flag_and flag_or remove_flag flag_not
flags-AreSets w value flag h k = (
  λ i. bit-and i value flag,
  λ i. bit-or i value flag,
  λ i. bit-and i value (2 ^ w - 1 - flag) ∙ bit-not w i value flag h k,
  has_flag-Meets w value flag h,
  has_all_flags-Includes w value flag h k,
)
