-- ===== src/MessageBuffer/Runs.antt =====
-- Concrete runs of the message buffer, and its theorems at concrete inputs.
use warhead_discord_client.Common.{◌≡◌, refl, none, [], ◌∷◌, arith}
use warhead_discord_client.MessageBuffer.{
  MessageBuffer, write, normalize, read_completed, active_size,
}
use warhead_discord_client.MessageBuffer.Laws.{IsValid, content, read_completed_lem}

-- Five bytes of storage: one was read, two are active.
abbrev half_read : MessageBuffer
half_read = record { wpos = 3; rpos = 1; storage = 1 ∷ 2 ∷ 3 ∷ 0 ∷ 0 ∷ [] }

abbrev full : MessageBuffer
full = record { wpos = 3; rpos = 1; storage = 1 ∷ 2 ∷ 3 ∷ [] }

write_past_end : write full (9 ∷ []) ≡ none
unfolding write
write_past_end = refl

normalize_moves_bytes :
    normalize half_read ≡ record { wpos = 2; rpos = 0; storage = 2 ∷ 3 ∷ 3 ∷ 0 ∷ 0 ∷ [] }
unfolding normalize
normalize_moves_bytes = refl

read_completed_lem_example :
    IsValid (read_completed half_read 1)
    × (content (read_completed half_read 1) ≡ 3 ∷ [])
    × ((read_completed half_read 1).wpos ≡ 3)
    × ((read_completed half_read 1).storage ≡ half_read.storage)
unfolding active_size
read_completed_lem_example = read_completed_lem half_read 1 (omega arith) (omega arith)
