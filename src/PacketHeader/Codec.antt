-- ===== src/PacketHeader/Codec.antt =====
-- The byte order of DiscordPacketHeader.h, and the round trip of a header.
use Prim.Native.Nat.{bit_and}
use mathlib.Core.List.{reverse, reverse-append, reverse-cons}
use warhead_discord_client.Common.{
  ℕ, zero, suc, ◌+◌, ◌*◌, ◌/◌, ◌%◌, ◌^◌, ◌<◌, ◌≡◌, refl, sym, ap, ◌∙◌, List, [], ◌∷◌, ◌++◌, arith,
  length, get_or, take, length-take,
}
use warhead_discord_client.Common.Bits.{bit_and_comm, bit_and_mask}
use warhead_discord_client.Common.Bytes.{le_bytes, le_value}
use warhead_discord_client.PacketHeader.{convert, endian_convert_reverse, server_header, header_at}

split_last : (n : ℕ) (l : List ℕ) → length l ≡ suc n → l ≡ take n l ++ (get_or l n 0 ∷ [])
split_last zero [] h = absurd (omega arith)
split_last zero (x ∷ []) h = refl
split_last zero (x ∷ y ∷ l) h = absurd (omega arith)
split_last (suc n) [] h = absurd (omega arith)
split_last (suc n) (x ∷ l) h = ap (λ r. x ∷ r) (split_last n l (omega arith))

reverse_ends : (x y : ℕ) (m : List ℕ) → reverse (x ∷ (m ++ (y ∷ []))) ≡ y ∷ (reverse m ++ (x ∷ []))
reverse_ends x y m =
    reverse-cons x (m ++ (y ∷ [])) ∙ ap (λ l. l ++ (x ∷ [])) (reverse-append m (y ∷ []))

-- `ByteConverter::convert` reverses an object of any size.
convert-reverse : (n : ℕ) (val : List ℕ) → length val ≡ n → convert n val ≡ reverse val
unfolding convert
convert-reverse zero [] h = refl
convert-reverse zero (x ∷ val) h = absurd (omega arith)
convert-reverse (suc zero) [] h = absurd (omega arith)
convert-reverse (suc zero) (x ∷ []) h = refl
convert-reverse (suc zero) (x ∷ y ∷ val) h = absurd (omega arith)
convert-reverse (suc (suc n)) [] h = absurd (omega arith)
convert-reverse (suc (suc n)) (x ∷ val) h =
    ap (λ m. get_or val n 0 ∷ (m ++ (x ∷ [])))
      (convert-reverse n (take n val) (omega (arith, length-take n val)))
    ∙ sym (reverse_ends x (get_or val n 0) (take n val))
    ∙ ap (λ l. reverse (x ∷ l)) (sym (split_last n val (omega arith)))

byte_mask : (a : ℕ) → bit_and 0xFF a ≡ a % 256
byte_mask a = bit_and_comm 0xFF a ∙ bit_and_mask 8 a

-- Swapping the four bytes of a `uint32`.
pub endian_convert_reverse_lem :
    (v : ℕ)
    → endian_convert_reverse v
      ≡ v / 2 ^ 24 % 256
        + 256 * (v / 2 ^ 16 % 256)
        + 2 ^ 16 * (v / 2 ^ 8 % 256)
        + 2 ^ 24 * (v % 256)
unfolding endian_convert_reverse le_bytes le_value
endian_convert_reverse_lem v = omega arith

-- The header that a sender builds is read back by a receiver: for a 32-bit size and a 16-bit opcode,
-- the struct over its bytes holds the opcode as it is, and the size once its bytes are swapped.
pub header_at-server_header :
    (size cmd : ℕ)
    → size < 2 ^ 32
    → cmd < 2 ^ 16
    → let h = header_at (server_header size cmd) in
      (endian_convert_reverse h.size ≡ size) × (h.cmd ≡ cmd)
unfolding header_at server_header le_value
header_at-server_header size cmd hs hc =
    rw
      (
        byte_mask (size / 2 ^ 24),
        byte_mask (size / 2 ^ 16),
        byte_mask (size / 2 ^ 8),
        byte_mask size,
        byte_mask cmd,
        byte_mask (cmd / 2 ^ 8),
        endian_convert_reverse_lem,
      )
      (omega arith, omega arith)
