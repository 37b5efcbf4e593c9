-- ===== src/Util/Runs.antt =====
-- A run of the hexadecimal conversions, and their theorem at it.
use warhead_discord_client.Common.{ℕ, ◌≡◌, refl, true, false, some, List, [], ◌∷◌, length, arith}
use warhead_discord_client.Util.{byte_array_to_hex_str, hex_str_to_byte_array}
use warhead_discord_client.Util.Hex.{hex_str_to_byte_array-byte_array_to_hex_str}

-- "02FF" backwards.
writes_backwards : byte_array_to_hex_str (255 ∷ 2 ∷ []) true ≡ 48 ∷ 50 ∷ 70 ∷ 70 ∷ []
unfolding byte_array_to_hex_str
writes_backwards = refl

-- " 7" and "-1" are read as numbers.
reads_oddly : hex_str_to_byte_array (32 ∷ 55 ∷ 45 ∷ 49 ∷ []) 2 false ≡ some (7 ∷ 255 ∷ [])
unfolding hex_str_to_byte_array
reads_oddly = refl

abbrev two_bytes : List ℕ
two_bytes = 255 ∷ 2 ∷ []

hex_str_to_byte_array-byte_array_to_hex_str_example :
    hex_str_to_byte_array (byte_array_to_hex_str two_bytes true) (length two_bytes) true
    ≡ some two_bytes
hex_str_to_byte_array-byte_array_to_hex_str_example =
    hex_str_to_byte_array-byte_array_to_hex_str two_bytes true (omega arith, (omega arith, tt))
