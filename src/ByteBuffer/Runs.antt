-- ===== src/ByteBuffer/Runs.antt =====
-- Concrete runs of the packet buffer, and its theorems at concrete inputs.
use warhead_discord_client.Common.{
  ℕ, ◌≤◌, ◌≡◌, refl, Bool, true, false, List, [], ◌∷◌, arith, length, map,
}
use warhead_discord_client.ByteBuffer.State.{ByteBuffer, ok}
use warhead_discord_client.ByteBuffer.Bounds.{Guarded, reads-Guarded}
use warhead_discord_client.ByteBuffer.RoundTrip.{
  Field, uint, flag, text, kind, write_fields, read_fields, received, read_fields-write_fields,
}
use warhead_discord_client.ByteBuffer.PackGuid.{
  append_pack_guid, read_pack_guid, packed, read_pack_guid-append_pack_guid,
}
use warhead_discord_client.Common.{All}
use warhead_discord_client.Common.Bytes.{le_bytes}
use warhead_discord_client.ByteBuffer.RoundTrip.{Fits}
use warhead_discord_client.ByteBuffer.{size, empty_buffer, append, read_uint, read, read_skip}

-- A received buffer, one byte of which was read.
abbrev sample : ByteBuffer
sample = record { rpos = 1; wpos = 2; storage = 7 ∷ 72 ∷ 105 ∷ 0 ∷ 9 ∷ [] }

abbrev always : List ℕ → Bool
always bytes = true

abbrev ascii_only : List ℕ → Bool
ascii_only bytes = false

-- `append` in the middle overwrites, and grows the storage past the end.
append_overwrites :
    append (1 ∷ 2 ∷ 3 ∷ 4 ∷ []) sample
    ≡ (ok tt, record { rpos = 1; wpos = 6; storage = 7 ∷ 72 ∷ 1 ∷ 2 ∷ 3 ∷ 4 ∷ [] })
unfolding append
append_overwrites = refl

reads-Guarded_example :
    Guarded 4 sample (read_uint 4 sample)
    × Guarded 4 sample (read 4 sample)
    × Guarded 4 sample (read_skip 4 sample)
reads-Guarded_example = reads-Guarded 4 sample (omega arith) (omega arith)

-- An auth packet: two texts, a version and a server id.
abbrev auth : List Field
auth = text (97 ∷ 98 ∷ []) ∷ text [] ∷ uint 4 100000 ∷ uint 8 42 ∷ flag true ∷ []

read_fields-write_fields_example :
    let (written, sent) = write_fields auth empty_buffer in
    let (values, b) = read_fields always (map kind auth) (received sent) in
    (written ≡ ok tt) × (values ≡ ok auth) × (b.rpos ≡ size b)
unfolding le_bytes
read_fields-write_fields_example = read_fields-write_fields always auth fits (omega arith)
  where
    fits : All (Fits always) auth
    fits = (
      (((λ e. omega arith), ((λ e. omega arith), tt)), refl),
      (
        (tt, refl),
        (((λ e. omega arith), omega arith), (((λ e. omega arith), omega arith), (tt, tt))),
      ),
    )

read_pack_guid-append_pack_guid_example :
    let (written, sent) = append_pack_guid 0xF100_0000_0003_0A00 empty_buffer in
    let (value, b) = read_pack_guid (received sent) in
    (written ≡ ok tt)
    × (sent.storage ≡ packed 0xF100_0000_0003_0A00)
    × (length (packed 0xF100_0000_0003_0A00) ≤ 9)
    × (value ≡ ok 0xF100_0000_0003_0A00)
    × (b.rpos ≡ size b)
read_pack_guid-append_pack_guid_example =
    read_pack_guid-append_pack_guid 0xF100_0000_0003_0A00 (omega arith)
