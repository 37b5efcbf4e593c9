-- ===== src/StringConvert/Runs.antt =====
-- Runs of the conversions between numbers and text, and their theorems at some of them.
use warhead_discord_client.Common.{ℕ, ◌≡◌, ◌↔◌, refl, true, false, none, some, List, codes, arith}
use warhead_discord_client.StringConvert.{Integral, from_string, to_string, bool_from_string}
use warhead_discord_client.StringConvert.Reading.{Denotes, from_string-Denotes}
use warhead_discord_client.StringConvert.RoundTrip.{from_string-to_string}

abbrev int8 : Integral
int8 = record { bits = 8; is_signed = true }

abbrev uint64 : Integral
uint64 = record { bits = 64; is_signed = false }

writes_smallest : to_string int8 128 ≡ some (codes "-128")
unfolding to_string
writes_smallest = refl

writes_largest : to_string uint64 18446744073709551615 ≡ some (codes "18446744073709551615")
unfolding to_string
writes_largest = refl

reads_smallest : from_string int8 (codes "-128") 10 ≡ some 128
unfolding from_string
reads_smallest = refl

refuses_overflow : from_string int8 (codes "128") 10 ≡ none
unfolding from_string
refuses_overflow = refl

refuses_rest : from_string int8 (codes "12 ") 10 ≡ none
unfolding from_string
refuses_rest = refl

reads_prefix : from_string uint64 (codes "0XfF") 0 ≡ some 255
unfolding from_string
reads_prefix = refl

refuses_sign : from_string uint64 (codes "-1") 10 ≡ none
unfolding from_string
refuses_sign = refl

reads_words : bool_from_string (codes "YES") false ≡ some true
unfolding bool_from_string
reads_words = refl

refuses_words : bool_from_string (codes "yes") true ≡ none
unfolding bool_from_string
refuses_words = refl

from_string-Denotes_example :
    (from_string int8 (codes "-7f") 16 ≡ some 129) ↔ Denotes int8 16 (codes "-7f") 129
from_string-Denotes_example =
    from_string-Denotes int8 16 129 (codes "-7f") (omega arith) (omega arith)

from_string-to_string_example :
    (str : List ℕ) × (to_string int8 200 ≡ some str) × (from_string int8 str 10 ≡ some 200)
from_string-to_string_example =
    from_string-to_string int8 200 (omega arith, omega arith) (omega arith)
