-- ===== src/ClientSocket/Runs.antt =====
-- Concrete runs of the client's connection, and its theorems at concrete inputs.
use warhead_discord_client.Common.{
  ℕ, suc, ◌+◌, ◌-◌, ◌^◌, ◌≤◌, ◌<◌, ◌≡◌, refl, Bool, true, false, Option, none, some, List, [], ◌∷◌,
  ◌++◌, arith, length,
}
use warhead_discord_client.MessageBuffer.{MessageBuffer, sized, active_size, remaining_space}
use warhead_discord_client.MessageBuffer.Laws
use warhead_discord_client.Socket.{Socket, opened, is_open}
use warhead_discord_client.ClientSocket.{send_packet, constructed}
use warhead_discord_client.ClientSocket.State.{DiscordPacket, ClientSocket}
use warhead_discord_client.ClientSocket.Loop.{receive, read_loop, read_handler}
use warhead_discord_client.ClientSocket.Sending.{Sent, send_packet-Sent}
use warhead_discord_client.ClientSocket.Reading.{Framed}
use warhead_discord_client.ClientSocket.Reads.{
  Read, run_reads, IsAfterRead, run_reads-IsAfterRead, constructed-IsReading,
}

abbrev ping : DiscordPacket
ping = record { opcode = 5; payload = record { rpos = 0; wpos = 2; storage = 8 ∷ 9 ∷ [] } }

send_packet-Sent_example : (s : Socket) × (send_packet ping opened ≡ some s) × Sent ping opened s
unfolding opened is_open
send_packet-Sent_example = send_packet-Sent ping opened refl (omega arith) tt

-- An authentication response with the code 0, cut after seven of its nine bytes: a size of 3 and the
-- opcode 6 make the header.
abbrev arrived : MessageBuffer
arrived = record { wpos = 7; rpos = 0; storage = 0 ∷ 0 ∷ 0 ∷ 3 ∷ 6 ∷ 0 ∷ 0 ∷ 0 ∷ [] }

abbrev pub header_space : MessageBuffer
header_space = record { wpos = 0; rpos = 0; storage = 0 ∷ 0 ∷ 0 ∷ 0 ∷ 0 ∷ 0 ∷ [] }

abbrev pub nothing : MessageBuffer
nothing = record { wpos = 0; rpos = 0; storage = [] }

arrived-IsValid : Laws.IsValid arrived
arrived-IsValid = record { ordered = omega arith; within = omega arith; small = omega arith }

pub header_space-IsValid : Laws.IsValid header_space
header_space-IsValid = record { ordered = omega arith; within = omega arith; small = omega arith }

pub nothing-IsValid : Laws.IsValid nothing
nothing-IsValid = record { ordered = omega arith; within = omega arith; small = omega arith }

abbrev pub calm : Socket
calm = record {
  read_buffer = arrived;
  write_queue = [];
  closed = false;
  closing = false;
  is_writing_async = false;
  sent = [];
  waits = 0;
  on_close_calls = 0;
}

abbrev pub client : ClientSocket
client = record {
  socket = calm;
  header_buffer = header_space;
  packet_buffer = nothing;
  authed = false;
  account_name = [];
  account_key = [];
  server_id = 1;
  start_time = 0;
  latency = 0;
  buffer_queue = [];
  disconnects = 0;
}

pub client-Framed : Framed client
client-Framed = record {
  read_valid = arrived-IsValid;
  read_space = omega arith;
  header_valid = header_space-IsValid;
  header_start = refl;
  header_size = refl;
  packet_valid = nothing-IsValid;
  packet_start = refl;
  no_payload = λ _. refl;
  awaits = λ e. absurd (omega (arith, e));
}

-- The response is handled: the client is authenticated and has queued a ping.
client_authenticates :
    ((read_handler (λ k. 1000) client).1.authed ≡ true)
    × (length (read_handler (λ k. 1000) client).1.socket.write_queue ≡ 1)
unfolding read_handler active_size remaining_space warhead_discord_client.MessageBuffer.write
    warhead_discord_client.MessageBuffer.read_bytes
    warhead_discord_client.ClientSocket.read_header_handler
    warhead_discord_client.PacketHeader.is_valid_size
    warhead_discord_client.PacketHeader.endian_convert_reverse
    warhead_discord_client.Common.Bytes.le_value warhead_discord_client.Common.Bytes.le_bytes
    warhead_discord_client.PacketHeader.header_at
    warhead_discord_client.PacketHeader.is_valid_opcode warhead_discord_client.MessageBuffer.resized
    warhead_discord_client.MessageBuffer.read_completed warhead_discord_client.ByteBuffer.read_uint
    warhead_discord_client.ByteBuffer.of_message warhead_discord_client.ByteBuffer.append_uint
    warhead_discord_client.ByteBuffer.append warhead_discord_client.ByteBuffer.read_at
    warhead_discord_client.ClientSocket.Loop.handle_packet
    warhead_discord_client.ClientSocket.Loop.round
    warhead_discord_client.ClientSocket.Loop.take_header
    warhead_discord_client.ClientSocket.Loop.take_payload
    warhead_discord_client.ClientSocket.disconnect warhead_discord_client.ClientSocket.dispatch
    warhead_discord_client.ClientSocket.fill
    warhead_discord_client.ClientSocket.handle_auth_responce
    warhead_discord_client.ClientSocket.handle_pong warhead_discord_client.ClientSocket.on_auth_code
    warhead_discord_client.ClientSocket.read_data_handler
    warhead_discord_client.ClientSocket.send_ping_message
    warhead_discord_client.ClientSocket.send_with
    warhead_discord_client.MessageBuffer.ensure_free_space
    warhead_discord_client.MessageBuffer.move_storage warhead_discord_client.MessageBuffer.moved
    warhead_discord_client.MessageBuffer.normalize warhead_discord_client.MessageBuffer.reset
    warhead_discord_client.MessageBuffer.write_completed warhead_discord_client.PacketHeader.convert
    warhead_discord_client.PacketHeader.server_header warhead_discord_client.Socket.async_read
    warhead_discord_client.Socket.close_socket warhead_discord_client.Socket.queue_packet read_loop
    receive send_packet is_open
client_authenticates = (refl, refl)

-- The response in two reads, and then an error.
abbrev reads : List Read
reads =
    record { bytes = some (0 ∷ 0 ∷ 0 ∷ []); clock = λ k. 1000 }
    ∷ record { bytes = some (3 ∷ 6 ∷ 0 ∷ 0 ∷ []); clock = λ k. 2000 }
    ∷ record { bytes = none; clock = λ k. 3000 }
    ∷ []

run_reads-IsAfterRead_example : IsAfterRead (run_reads reads (constructed (97 ∷ []) (98 ∷ []) 7))
run_reads-IsAfterRead_example =
    run_reads-IsAfterRead reads (constructed (97 ∷ []) (98 ∷ []) 7)
      (constructed-IsReading (97 ∷ []) (98 ∷ []) 7)
