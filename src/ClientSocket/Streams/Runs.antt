-- ===== src/ClientSocket/Streams/Runs.antt =====
-- The frames of a response that arrives whole, and in two pieces.
use warhead_discord_client.Common.{ℕ, refl, List, [], ◌∷◌, ◌++◌, length, arith}
use warhead_discord_client.MessageBuffer.{
  active_size, remaining_space, write, read_bytes, read_completed, write_completed,
}
use warhead_discord_client.ClientSocket.State.{ClientSocket}
use warhead_discord_client.ClientSocket.Loop.{take_header, receive}
use warhead_discord_client.ClientSocket.Reading.{Framed}
use warhead_discord_client.ClientSocket.Runs.{calm, client, header_space-IsValid, nothing-IsValid}
use warhead_discord_client.ClientSocket.Frames.{frame}
use warhead_discord_client.ClientSocket.Cutting.{partial_of, arrived, cut, CutsTo}
use warhead_discord_client.ClientSocket.Streams.{cut_resumed}

-- Three bytes, and then four.
abbrev reading : List ℕ → ClientSocket
reading bytes = record client {
  socket = record calm { read_buffer = record { wpos = length bytes; rpos = 0; storage = bytes } };
}

abbrev begun : ClientSocket
begun = reading (0 ∷ 0 ∷ 0 ∷ [])

abbrev later : ClientSocket
later = record (reading (3 ∷ 6 ∷ 0 ∷ 0 ∷ [])) {
  header_buffer = record { wpos = 3; rpos = 0; storage = 0 ∷ 0 ∷ 0 ∷ 0 ∷ 0 ∷ 0 ∷ [] };
}

begun-Framed : Framed begun
begun-Framed = record {
  read_valid = record { ordered = omega arith; within = omega arith; small = omega arith };
  read_space = omega arith;
  header_valid = header_space-IsValid;
  header_start = refl;
  header_size = refl;
  packet_valid = nothing-IsValid;
  packet_start = refl;
  no_payload = λ _. refl;
  awaits = λ e. absurd (omega (arith, e));
}

later-Framed : Framed later
later-Framed = record {
  read_valid = record { ordered = omega arith; within = omega arith; small = omega arith };
  read_space = omega arith;
  header_valid = record { ordered = omega arith; within = omega arith; small = omega arith };
  header_start = refl;
  header_size = refl;
  packet_valid = nothing-IsValid;
  packet_start = refl;
  no_payload = λ _. refl;
  awaits = λ e. absurd (omega (arith, e));
}

cut_resumed_example : CutsTo (frame (partial_of begun) (arrived begun ++ arrived later)) (cut later)
unfolding take_header receive active_size remaining_space write read_bytes read_completed
    write_completed
cut_resumed_example = cut_resumed begun later begun-Framed later-Framed refl refl
