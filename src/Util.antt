-- ===== src/Util.antt =====
-- src/common/Utilities/Util.cpp: bytes as hexadecimal text and back. A character is its code; an array has
-- fewer than 2 ^ 30 elements, so that the 32-bit indices do not overflow.
pub mod Hex
mod Runs
use warhead_discord_client.Common.{
  ℕ, zero, suc, ◌+◌, ◌-◌, ◌*◌, ◌/◌, ◌%◌, ◌^◌, Bool, true, false, ◌&&◌, ◌||◌, Option, none, some,
  List, [], ◌∷◌, ltb, leb, ◌==◌, if◌then◌else◌, length, get_or,
}

-- The k-th index that a loop over n elements visits, forwards or backwards.
abbrev pub index : Bool → ℕ → ℕ → ℕ
index reverse n k = if reverse then n - 1 - k else k

-- The results of the rounds `start` and so on, n of them.
abbrev pub rounds : (ℕ → ℕ) → ℕ → ℕ → List ℕ
rounds f start zero = []
rounds f start (suc n) = f start ∷ rounds f (suc start) n

-- A digit of `%X`.
abbrev pub hex_digit : ℕ → ℕ
hex_digit d = if ltb d 10 then 48 + d else 55 + d

-- The appended texts of `sprintf(buffer, "%02X", byte)`.
abbrev pub append_hex : List ℕ → List ℕ
append_hex [] = []
append_hex (b ∷ bs) = hex_digit (b / 16) ∷ hex_digit (b % 16) ∷ append_hex bs

unfoldable pub byte_array_to_hex_str : List ℕ → Bool → List ℕ
byte_array_to_hex_str bytes reverse =
    let n = length bytes in append_hex (rounds (λ k. get_or bytes (index reverse n k) 0) 0 n)

-- The value of a hexadecimal digit, in either case.
abbrev pub digit_value : ℕ → Option ℕ
digit_value c =
    if leb 48 c && ltb c 58
    then some (c - 48)
    else if leb 65 c && ltb c 71
    then some (c - 55)
    else if leb 97 c && ltb c 103
    then some (c - 87)
    else none

abbrev pub is_space : ℕ → Bool
is_space c = (c == 32) || (leb 9 c && ltb c 14)

-- One digit, or no number at all, which gives 0.
abbrev pub one_digit : Option ℕ → ℕ
one_digit none = 0
one_digit (some d) = d

abbrev pub two_digits : Option ℕ → Option ℕ → ℕ
two_digits none low = 0
two_digits (some d) none = d
two_digits (some d) (some e) = 16 * d + e

-- `uint8(strtoul(buffer, nullptr, 16))` on two characters: white space and a sign may come before the
-- digits, and what is behind them is ignored.
unfoldable pub parse_pair : ℕ → ℕ → ℕ
parse_pair a b =
    if is_space a || (a == 43)
    then one_digit (digit_value b)
    else if a == 45
    then (2 ^ 8 - one_digit (digit_value b)) % 2 ^ 8
    else two_digits (digit_value a) (digit_value b)

-- `none` is the failed assertion on the length.
unfoldable pub hex_str_to_byte_array : List ℕ → ℕ → Bool → Option (List ℕ)
unfolding parse_pair
hex_str_to_byte_array str outlen reverse =
    if length str == 2 * outlen
    then some (
        rounds
          (λ k.
            let i = 2 * index reverse outlen k in
            parse_pair (get_or str i 0) (get_or str (i + 1) 0))
          0 outlen)
    else none
