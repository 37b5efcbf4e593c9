-- ===== src/StringConvert.antt =====
-- src/common/Utilities/StringConvert.h: numbers and truth values as text and back. A character is its code, and
-- a number of w bits is its pattern, below 2 ^ w, which is two's complement for a signed type.
pub mod Digits
pub mod RoundTrip
pub mod Reading
mod Runs
use warhead_discord_client.Common.{
  ℕ, zero, suc, ◌+◌, ◌-◌, ◌*◌, ◌/◌, ◌%◌, ◌^◌, Bool, true, false, not, ◌&&◌, ◌||◌, Option, none,
  some, List, [], ◌∷◌, ◌++◌, ltb, leb, ◌==◌, if◌then◌else◌, length, take, drop, codes,
}

-- An integral type: its width, and whether it has negative numbers.
pub record Integral : Type 0 where
  pub bits : ℕ
  pub is_signed : Bool

-- `tolower` in the C locale.
abbrev pub to_lower : ℕ → ℕ
to_lower c = if leb 65 c && ltb c 91 then c + 32 else c

-- `StringEqualI` of Util.cpp.
unfoldable pub string_equal_i : List ℕ → List ℕ → Bool
string_equal_i [] [] = true
string_equal_i [] (d ∷ ds) = false
string_equal_i (c ∷ cs) [] = false
string_equal_i (c ∷ cs) (d ∷ ds) = (to_lower c == to_lower d) && string_equal_i cs ds

-- The value of a character as a digit; 36 is the value of none.
abbrev pub digit_of : ℕ → ℕ
digit_of c =
    if leb 48 c && ltb c 58
    then c - 48
    else if leb 65 c && ltb c 91
    then c - 55
    else if leb 97 c && ltb c 123
    then c - 87
    else 36

-- What `std::from_chars` has found: whether there was a digit, the number that the digits spell, and the
-- text behind them.
pub record Scanned : Type 0 where
  pub any : Bool
  pub number : ℕ
  pub rest : List ℕ

unfoldable pub scan : ℕ → List ℕ → Bool → ℕ → Scanned
scan base [] any n = record { any = any; number = n; rest = [] }
scan base (c ∷ cs) any n =
    let more = scan base cs true (n * base + digit_of c) in
    if ltb (digit_of c) base then more else record { any = any; number = n; rest = c ∷ cs }

-- The result of `from_chars` without its pointer, for a whole text: a value if there are digits, nothing
-- is behind them and the number is in the range.
abbrev pub if_whole : Scanned → ℕ → ℕ → Option ℕ
if_whole s limit pattern =
    if s.any && (length s.rest == 0) && ltb s.number limit then some pattern else none

abbrev pub from_positive : Integral → ℕ → List ℕ → Option ℕ
unfolding scan
from_positive t base str =
    let s = scan base str false 0 in
    if_whole s (if t.is_signed then 2 ^ (t.bits - 1) else 2 ^ t.bits) s.number

abbrev pub from_negative : Integral → ℕ → List ℕ → Option ℕ
unfolding scan
from_negative t base str =
    let s = scan base str false 0 in
    if_whole s (2 ^ (t.bits - 1) + 1) ((2 ^ t.bits - s.number) % 2 ^ t.bits)

-- `std::from_chars` on a whole text, in one of the bases 2 to 36: a minus sign only for a signed type.
unfoldable pub from_chars : Integral → ℕ → List ℕ → Option ℕ
unfolding from_positive from_negative
from_chars t base [] = none
from_chars t base (c ∷ cs) =
    if t.is_signed && (c == 45) then from_negative t base cs else from_positive t base (c ∷ cs)

-- The base 0 stands for a prefix; an empty rest gives nothing.
abbrev pub prefixed : Integral → List ℕ → Option ℕ
unfolding string_equal_i from_chars
prefixed t str =
    if string_equal_i (take 2 str) (codes "0x")
    then from_chars t 16 (drop 2 str)
    else if string_equal_i (take 2 str) (codes "0b")
    then from_chars t 2 (drop 2 str)
    else from_chars t 10 str

-- `FromString` of an integral type.
unfoldable pub from_string : Integral → List ℕ → ℕ → Option ℕ
unfolding prefixed from_chars
from_string t str base = if base == 0 then prefixed t str else from_chars t base str

-- The decimal digits of a number below 2 ^ fuel.
unfoldable pub decimal : ℕ → ℕ → List ℕ
decimal zero n = []
decimal (suc fuel) n =
    let high = decimal fuel (n / 10) in
    if ltb n 10 then (48 + n) ∷ [] else high ++ ((48 + n % 10) ∷ [])

-- `std::to_chars`.
unfoldable pub to_chars : Integral → ℕ → List ℕ
unfolding decimal
to_chars t val =
    if t.is_signed && leb (2 ^ (t.bits - 1)) val
    then 45 ∷ decimal t.bits (2 ^ t.bits - val)
    else decimal t.bits val

-- `ToString` of an integral type; `none` is the failed assertion, when the 20 characters of the buffer
-- are not enough.
unfoldable pub to_string : Integral → ℕ → Option (List ℕ)
unfolding to_chars
to_string t val = let buf = to_chars t val in if leb (length buf) 20 then some buf else none

abbrev pub is_one_of : List ℕ → List (List ℕ) → Bool
unfolding string_equal_i
is_one_of str [] = false
is_one_of str (w ∷ ws) = string_equal_i str w || is_one_of str ws

abbrev pub equals : List ℕ → ℕ → Bool
equals [] c = false
equals (d ∷ ds) c = (d == c) && (length ds == 0)

abbrev pub truth_words : List (List ℕ)
truth_words = codes "y" ∷ codes "on" ∷ codes "yes" ∷ codes "true" ∷ []

abbrev pub falsehood_words : List (List ℕ)
falsehood_words = codes "n" ∷ codes "off" ∷ codes "no" ∷ codes "false" ∷ []

-- `FromString` and `ToString` of a truth value.
unfoldable pub bool_from_string : List ℕ → Bool → Option Bool
unfolding is_one_of
bool_from_string str strict =
    if equals str 49 || (not strict && is_one_of str truth_words)
    then some true
    else if equals str 48 || (not strict && is_one_of str falsehood_words)
    then some false
    else none

unfoldable pub bool_to_string : Bool → List ℕ
bool_to_string val = if val then 49 ∷ [] else 48 ∷ []
