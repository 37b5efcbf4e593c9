-- ===== src/Common/Bits.antt =====
-- Laws of `bit_and` and `bit_or` at variables, from the digit recursion of the native operations.
use Prim.Native.Nat.{
  ℕ, zero, suc, ◌+◌, ◌-◌, ◌*◌, ◌/◌, ◌%◌, ◌^◌, ◌≤◌, ◌<◌, min, max, bit_and, bit_or, digits, bitwise,
  bit_and-bitwise, bit_or-bitwise,
}
use mathlib.Core.Path.{◌≡◌, refl, sym, ap, ◌∙◌}
use native.Mathlib.Nat.{
  pow-suc, div-div-eq-div-mul, add-mul-mod_self_right, mod-eq_of_lt, mod-lt, div-add-mod, mul_comm,
}
use native.Mathlib.Omega.{arith}

-- An operation on binary digits that goes on in the same way once the first number has run out.
module _ (z : ℕ → ℕ) (f : ℕ → ℕ → ℕ) (goes_on : (b : ℕ) → z b ≡ z (b / 2) * 2 + f 0 (b % 2)) where
  -- Rounds beyond the size of the first number change nothing.
  enough_rounds : (k n a b : ℕ) → n ≤ k → a ≤ n → digits z f n a b ≡ bitwise z f a b
  enough_rounds k zero zero b hk ha = refl
  enough_rounds k zero (suc a) b hk ha = absurd (omega arith)
  enough_rounds k (suc n) zero b hk ha = refl
  enough_rounds zero (suc n) (suc a) b hk ha = absurd (omega arith)
  enough_rounds (suc k) (suc n) (suc a) b hk ha =
      ap (λ t. t * 2 + f (suc a % 2) (b % 2))
        (enough_rounds k n (suc a / 2) (b / 2) (omega arith) (omega arith)
          ∙ sym (enough_rounds k a (suc a / 2) (b / 2) (omega arith) (omega arith)))

  lowest_digit : (a b : ℕ) → bitwise z f a b ≡ bitwise z f (a / 2) (b / 2) * 2 + f (a % 2) (b % 2)
  lowest_digit zero b = goes_on b
  lowest_digit (suc a) b =
      ap (λ t. t * 2 + f (suc a % 2) (b % 2))
        (enough_rounds a a (suc a / 2) (b / 2) (omega arith) (omega arith))

-- `bit_and` and `bit_or` by their lowest digits. Listed for `omega`, at both sides of a call.
pub and_lowest : (a b : ℕ) → bit_and a b ≡ bit_and (a / 2) (b / 2) * 2 + min (a % 2) (b % 2)
and_lowest a b =
    bit_and-bitwise a b
    ∙ lowest_digit (λ x. 0) min (λ x. omega arith) a b
    ∙ ap (λ t. t * 2 + min (a % 2) (b % 2)) (sym (bit_and-bitwise (a / 2) (b / 2)))

pub or_lowest : (a b : ℕ) → bit_or a b ≡ bit_or (a / 2) (b / 2) * 2 + max (a % 2) (b % 2)
or_lowest a b =
    bit_or-bitwise a b
    ∙ lowest_digit (λ x. x) max (λ x. omega arith) a b
    ∙ ap (λ t. t * 2 + max (a % 2) (b % 2)) (sym (bit_or-bitwise (a / 2) (b / 2)))

none_or : (b : ℕ) → bit_or 0 b ≡ b
none_or b = bit_or-bitwise 0 b

-- `bit_and` with its numbers swapped, and with nothing.
and_comm_below : (k a b : ℕ) → a < 2 ^ k → bit_and a b ≡ bit_and b a
and_comm_below zero a b h =
    let e : a ≡ 0 = omega arith in rw e (bit_and-bitwise 0 b ∙ sym (and_none b b (omega arith)))
  where
    and_none : (k x : ℕ) → x ≤ k → bit_and x 0 ≡ 0
    and_none k zero hx = refl
    and_none zero (suc x) hx = absurd (omega arith)
    and_none (suc k) (suc x) hx =
        omega (arith, and_lowest (suc x) 0, and_none k (suc x / 2) (omega arith))
and_comm_below (suc k) a b h = omega (
  arith,
  and_lowest a b,
  and_lowest b a,
  and_comm_below k (a / 2) (b / 2) (omega (arith, pow-suc 2 k)),
)

lt_two_pow : (a : ℕ) → a < 2 ^ a
lt_two_pow zero = omega arith
lt_two_pow (suc a) = omega (arith, pow-suc 2 a, lt_two_pow a)

pub bit_and_comm : (a b : ℕ) → bit_and a b ≡ bit_and b a
bit_and_comm a b = and_comm_below a a b (lt_two_pow a)

and_none : (a : ℕ) → bit_and a 0 ≡ 0
and_none a = bit_and_comm a 0 ∙ bit_and-bitwise 0 a

double : (a k : ℕ) → a * 2 ^ suc k ≡ a * 2 ^ k * 2
double a k = rw (pow-suc 2 k) (omega arith)

half_double : (q : ℕ) → q * 2 / 2 ≡ q
half_double q = omega arith

-- Putting bits above a number that stays below them is addition.
pub bit_or_above : (k a b : ℕ) → b < 2 ^ k → bit_or b (a * 2 ^ k) ≡ b + a * 2 ^ k
bit_or_above zero a b h = let e : b ≡ 0 = omega arith in rw e (omega (arith, none_or (a * 2 ^ 0)))
bit_or_above (suc k) a b h = rw (double a k) (
    omega (
      arith,
      rw half_double at (or_lowest b (a * 2 ^ k * 2)),
      bit_or_above k a (b / 2) (omega (arith, pow-suc 2 k)),
    ))

-- The lowest digit of a remainder by an even number.
mod_double : (a p : ℕ) → 0 < p → a % (p * 2) ≡ a / 2 % p * 2 + a % 2
mod_double a p h =
    ap (λ n. n % (p * 2)) split
    ∙ add-mul-mod_self_right (a / 2 % p * 2 + a % 2) (a / 2 / p) (p * 2)
    ∙ mod-eq_of_lt (omega (arith, mod-lt (a / 2) h))
  where
    split : a ≡ a / 2 % p * 2 + a % 2 + a / 2 / p * (p * 2)
    split = omega (arith, div-add-mod (a / 2) p)

div_double : (a p : ℕ) → 0 < p → a / (p * 2) ≡ a / 2 / p
div_double a p h = rw (mul_comm p 2) (sym (div-div-eq-div-mul a 2 p))

pub two_pow_pos : (k : ℕ) → 0 < 2 ^ k
two_pow_pos zero = omega arith
two_pow_pos (suc k) = omega (arith, pow-suc 2 k, two_pow_pos k)

-- The mask of the low k bits.
pub bit_and_mask : (k a : ℕ) → bit_and a (2 ^ k - 1) ≡ a % 2 ^ k
bit_and_mask zero a = omega (arith, and_none a)
bit_and_mask (suc k) a = rw (pow-suc 2 k) (
    omega
      (arith, step, bit_and_mask k (a / 2), mod_double a (2 ^ k) (two_pow_pos k), two_pow_pos k))
  where
    half : (2 ^ k * 2 - 1) / 2 ≡ 2 ^ k - 1
    half = omega (arith, two_pow_pos k)

    step :
        bit_and a (2 ^ k * 2 - 1)
        ≡ bit_and (a / 2) (2 ^ k - 1) * 2 + min (a % 2) ((2 ^ k * 2 - 1) % 2)
    step = rw half at (and_lowest a (2 ^ k * 2 - 1))

-- The test of bit k.
pub bit_and_bit : (k a : ℕ) → bit_and a (2 ^ k) ≡ a / 2 ^ k % 2 * 2 ^ k
bit_and_bit zero a = omega (arith, and_lowest a 1, and_none (a / 2))
bit_and_bit (suc k) a =
    rw (pow-suc 2 k, div_double a (2 ^ k) (two_pow_pos k))
      (omega (arith, step, bit_and_bit k (a / 2)))
  where
    step : bit_and a (2 ^ k * 2) ≡ bit_and (a / 2) (2 ^ k) * 2 + min (a % 2) (2 ^ k * 2 % 2)
    step = rw half_double at (and_lowest a (2 ^ k * 2))
