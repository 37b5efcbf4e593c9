-- ===== src/PacketHeader.antt =====
-- src/shared/DiscordPacketHeader.h and src/common/Utilities/ByteConverter.h: the six bytes before a
-- payload. The size travels in network order, the opcode in little-endian order.
pub mod Codec
mod Runs
use Prim.Native.Nat.{bit_and}
use warhead_discord_client.Common.{
  ℕ, zero, suc, ◌+◌, ◌/◌, ◌%◌, ◌^◌, Bool, ◌&&◌, List, [], ◌∷◌, ◌++◌, length, get_or, take, drop,
  ltb, leb,
}
use warhead_discord_client.Common.Bytes.{le_bytes, le_value}

-- `NUM_OPCODE_HANDLERS`
abbrev pub num_opcode_handlers : ℕ
num_opcode_handlers = 8

-- `ByteConverter::convert<T>` on an object of n bytes: swap the ends, then go inwards.
unfoldable pub convert : ℕ → List ℕ → List ℕ
convert zero val = val
convert (suc zero) val = val
convert (suc (suc n)) val =
    get_or val (suc n) 0 ∷ (convert n (take n (drop 1 val)) ++ (get_or val 0 0 ∷ []))

-- `EndianConvertReverse` of a `uint32` on a little-endian machine, as numbers.
unfoldable pub endian_convert_reverse : ℕ → ℕ
unfolding convert
endian_convert_reverse val = le_value (convert 4 (le_bytes 4 val))

-- The bytes that the constructor of `DiscordServerPktHeader` writes.
unfoldable pub server_header : ℕ → ℕ → List ℕ
server_header size cmd =
    bit_and 0xFF (size / 2 ^ 24)
    ∷ bit_and 0xFF (size / 2 ^ 16)
    ∷ bit_and 0xFF (size / 2 ^ 8)
    ∷ bit_and 0xFF size
    ∷ bit_and 0xFF cmd
    ∷ bit_and 0xFF (cmd / 2 ^ 8)
    ∷ []

-- `GetHeaderLength()`, and `sizeof(DiscordClientPktHeader)`.
abbrev pub header_length : ℕ
header_length = 6

pub record ClientHeader : Type 0 where
  pub size : ℕ
  pub cmd : ℕ

-- The packed struct that `reinterpret_cast` reads from six bytes.
unfoldable pub header_at : List ℕ → ClientHeader
header_at bytes = record { size = le_value (take 4 bytes); cmd = le_value (take 2 (drop 4 bytes)) }

unfoldable pub is_valid_size : ClientHeader → Bool
is_valid_size h = leb 2 h.size && ltb h.size 10000

unfoldable pub is_valid_opcode : ClientHeader → Bool
is_valid_opcode h = ltb h.cmd num_opcode_handlers
