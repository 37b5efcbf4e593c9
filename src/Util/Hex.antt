-- ===== src/Util/Hex.antt =====
-- src/common/Utilities/Util.cpp: hexadecimal text and bytes are inverse, in either direction of the loops.
use warhead_discord_client.Common.{
  ℕ, zero, suc, ◌+◌, ◌*◌, ◌/◌, ◌%◌, ◌≤◌, ◌<◌, ◌≡◌, refl, ap, ap₂, ◌∙◌, Bool, true, false, none,
  some, List, [], ◌∷◌, ◌==◌, if◌then◌else◌, arith, All, length, get_or,
}
use warhead_discord_client.Util.{
  index, rounds, hex_digit, append_hex, byte_array_to_hex_str, digit_value, parse_pair,
  hex_str_to_byte_array,
}

length-rounds : (f : ℕ → ℕ) (start n : ℕ) → length (rounds f start n) ≡ n
length-rounds f start zero = refl
length-rounds f start (suc n) = ap suc (length-rounds f (suc start) n)

length-append_hex : (xs : List ℕ) → length (append_hex xs) ≡ 2 * length xs
length-append_hex [] = omega arith
length-append_hex (x ∷ xs) = omega (arith, length-append_hex xs)

get_or-rounds : (f : ℕ → ℕ) (start n k : ℕ) → k < n → get_or (rounds f start n) k 0 ≡ f (start + k)
get_or-rounds f start zero k h = absurd (omega arith)
get_or-rounds f start (suc n) zero h = ap f (omega arith)
get_or-rounds f start (suc n) (suc k) h =
    get_or-rounds f (suc start) n k (omega arith) ∙ ap f (omega arith)

-- The two digits of the k-th byte.
get_or-append_hex :
    (xs : List ℕ) (k i : ℕ)
    → k < length xs
    → i ≡ 2 * k
    → (get_or (append_hex xs) i 0 ≡ hex_digit (get_or xs k 0 / 16))
      × (get_or (append_hex xs) (suc i) 0 ≡ hex_digit (get_or xs k 0 % 16))
get_or-append_hex [] k i h e = absurd (omega arith)
get_or-append_hex (x ∷ xs) zero zero h e = (refl, refl)
get_or-append_hex (x ∷ xs) zero (suc i) h e = absurd (omega arith)
get_or-append_hex (x ∷ xs) (suc k) zero h e = absurd (omega arith)
get_or-append_hex (x ∷ xs) (suc k) (suc zero) h e = absurd (omega arith)
get_or-append_hex (x ∷ xs) (suc k) (suc (suc i)) h e =
    get_or-append_hex xs k i (omega arith) (omega arith)

digit_value-hex_digit : (d : ℕ) → d < 16 → digit_value (hex_digit d) ≡ some d
digit_value-hex_digit d h = ground arith

parse_pair-hex_digit : (b : ℕ) → b < 256 → parse_pair (hex_digit (b / 16)) (hex_digit (b % 16)) ≡ b
unfolding parse_pair
parse_pair-hex_digit b h = ground arith

rounds-same :
    (f g : ℕ → ℕ) (start n : ℕ)
    → ((k : ℕ) → start ≤ k → k < start + n → f k ≡ g k)
    → rounds f start n ≡ rounds g start n
rounds-same f g start zero h = refl
rounds-same f g start (suc n) h =
    ap₂ (λ x xs. x ∷ xs) (h start (omega arith) (omega arith))
      (rounds-same f g (suc start) n (λ k l u. h k (omega arith) (omega arith)))

rounds-shift : (f : ℕ → ℕ) (start n : ℕ) → rounds f (suc start) n ≡ rounds (λ k. f (suc k)) start n
rounds-shift f start zero = refl
rounds-shift f start (suc n) = ap (λ xs. f (suc start) ∷ xs) (rounds-shift f (suc start) n)

rounds-get_or : (xs : List ℕ) → rounds (λ k. get_or xs k 0) 0 (length xs) ≡ xs
rounds-get_or [] = refl
rounds-get_or (x ∷ xs) =
    ap (λ ys. x ∷ ys) (rounds-shift (λ k. get_or (x ∷ xs) k 0) 0 (length xs) ∙ rounds-get_or xs)

get_or-bound : (xs : List ℕ) (k : ℕ) → All (λ b. b < 256) xs → get_or xs k 0 < 256
get_or-bound [] k v = omega arith
get_or-bound (x ∷ xs) zero v = v.0
get_or-bound (x ∷ xs) (suc k) v = get_or-bound xs k v.1

index-bound : (reverse : Bool) (n k : ℕ) → k < n → index reverse n k < n
index-bound true n k h = omega arith
index-bound false n k h = h

index-index : (reverse : Bool) (n k : ℕ) → k < n → index reverse n (index reverse n k) ≡ k
index-index true n k h = omega arith
index-index false n k h = refl

-- `HexStrToByteArray` reads back the bytes that `ByteArrayToHexStr` wrote, when both go in the same
-- direction; the text has two characters for each byte, so that the assertion holds.
pub hex_str_to_byte_array-byte_array_to_hex_str :
    (bytes : List ℕ) (reverse : Bool)
    → All (λ b. b < 256) bytes
    → hex_str_to_byte_array (byte_array_to_hex_str bytes reverse) (length bytes) reverse
      ≡ some bytes
unfolding hex_str_to_byte_array byte_array_to_hex_str
hex_str_to_byte_array-byte_array_to_hex_str bytes reverse v =
    let n = length bytes in
    let visited = rounds (λ k. get_or bytes (index reverse n k) 0) 0 n in
    let l = length-rounds (λ k. get_or bytes (index reverse n k) 0) 0 n in
    let whole : (length (append_hex visited) == 2 * n) ≡ true =
      let e = length-append_hex visited in ground arith in
    let read : ℕ → ℕ = λ k.
      let i = 2 * index reverse n k in
      parse_pair (get_or (append_hex visited) i 0) (get_or (append_hex visited) (i + 1) 0) in
    let back : (k : ℕ) → 0 ≤ k → k < 0 + n → read k ≡ get_or bytes k 0 = λ k low h.
      let j = index reverse n k in
      let b = index-bound reverse n k (omega arith) in
      let (hi, lo) = get_or-append_hex visited j (2 * j) (omega (arith, b, l)) refl in
      let at : get_or visited j 0 ≡ get_or bytes k 0 =
        get_or-rounds (λ k. get_or bytes (index reverse n k) 0) 0 n j b
        ∙ ap (λ m. get_or bytes (index reverse n m) 0) (omega arith)
        ∙ ap (λ m. get_or bytes m 0) (index-index reverse n k (omega arith)) in
      ap₂ parse_pair hi (ap (λ m. get_or (append_hex visited) m 0) (omega arith) ∙ lo)
      ∙ parse_pair-hex_digit (get_or visited j 0) (omega (arith, at, get_or-bound bytes k v))
      ∙ at in
    ap (λ c. if c then some (rounds read 0 n) else none) whole
    ∙ ap some (rounds-same read (λ k. get_or bytes k 0) 0 n back ∙ rounds-get_or bytes)
