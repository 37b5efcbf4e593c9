-- ===== src/PacketHeader/Runs.antt =====
-- The theorems on packet headers at concrete inputs.
use warhead_discord_client.Common.{◌≡◌, refl, [], ◌∷◌, arith}
use warhead_discord_client.PacketHeader.{server_header, header_at, endian_convert_reverse}
use warhead_discord_client.PacketHeader.Codec.{header_at-server_header}

-- A payload of 0x0102 bytes with opcode 5.
ping_header : server_header 0x0102 5 ≡ 0 ∷ 0 ∷ 1 ∷ 2 ∷ 5 ∷ 0 ∷ []
unfolding server_header
ping_header = refl

header_at-server_header_example :
    let h = header_at (server_header 300 6) in (endian_convert_reverse h.size ≡ 300) × (h.cmd ≡ 6)
header_at-server_header_example = header_at-server_header 300 6 (omega arith) (omega arith)
