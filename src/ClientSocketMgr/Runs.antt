-- ===== src/ClientSocketMgr/Runs.antt =====
-- A concrete update of the manager, and its theorem there.
use warhead_discord_client.Common.{◌≡◌, refl, inr, List, none, true, false, some, [], ◌∷◌, ◌++◌}
use warhead_discord_client.MessageBuffer.{MessageBuffer}
use warhead_discord_client.Socket.{Socket, would_block}
use warhead_discord_client.Socket
use warhead_discord_client.ClientSocket.State.{DiscordPacket, ClientSocket}
use warhead_discord_client.ClientSocket.Loop
use warhead_discord_client.ClientSocketMgr.{ClientSocketMgr, updates, update, initialize}
use warhead_discord_client.ClientSocketMgr.Lifecycle.{
  Event, runs, disconnects, run, GoesOn, run-GoesOn,
}
use warhead_discord_client.ClientSocketMgr.Forwarding.{with_packets, update-forwards}

abbrev bytes : MessageBuffer
bytes = record { wpos = 0; rpos = 0; storage = 0 ∷ 0 ∷ [] }

abbrev connected : ClientSocket
connected = record {
  socket = record {
    read_buffer = bytes;
    write_queue = [];
    closed = false;
    closing = false;
    is_writing_async = false;
    sent = [];
    waits = 0;
    on_close_calls = 0;
  };
  header_buffer = bytes;
  packet_buffer = bytes;
  authed = false;
  account_name = [];
  account_key = [];
  server_id = 1;
  start_time = 0;
  latency = 0;
  buffer_queue = [];
  disconnects = 0;
}

abbrev hello : DiscordPacket
hello = record { opcode = 1; payload = record { rpos = 0; wpos = 1; storage = 7 ∷ [] } }

abbrev manager : ClientSocketMgr
manager = record {
  stopped = false;
  client_socket = some connected;
  buffer_queue = hello ∷ [];
  owed = [];
  released = [];
  has_address = true;
}

update-forwards_example : update (λ i. would_block) manager ≡ (
  true,
  record manager {
    owed = manager.owed ++ (updates ∷ []);
    client_socket = some (with_packets manager.buffer_queue connected);
    buffer_queue = [];
  },
)
unfolding Loop.update Socket.update
update-forwards_example =
    update-forwards (λ i. would_block) connected connected manager refl refl refl

abbrev fresh : ClientSocketMgr
fresh = record {
  stopped = false;
  client_socket = none;
  buffer_queue = [];
  owed = [];
  released = [];
  has_address = false;
}

abbrev started : ClientSocketMgr
unfolding initialize
started = initialize true true fresh

-- A client whose connection is lost.
abbrev lost : ClientSocket
lost = record connected { socket = record connected.socket { closed = true } }

-- The connection, its loss in the next update, and a second connection.
abbrev reconnection : List Event
reconnection =
    runs 0 (λ i. would_block) (some lost ∷ [])
    ∷ runs 0 (λ i. would_block) []
    ∷ runs 1 (λ i. would_block) (none ∷ some connected ∷ [])
    ∷ []

-- From then on two updates are owed at any time, since the update that found the loss had left its
-- successor with the timer.
owes_twice : (run reconnection started).owed ≡ updates ∷ updates ∷ []
unfolding started run Loop.update Socket.update
owes_twice = refl

-- A connection handler that is owed when the application disconnects still connects.
connects_stopped :
    (run (disconnects ∷ runs 0 (λ i. would_block) (some connected ∷ []) ∷ []) started).client_socket
    ≡ some connected
unfolding started run
connects_stopped = refl

run-GoesOn_example : GoesOn (run reconnection started)
unfolding started
run-GoesOn_example = run-GoesOn reconnection started (refl, inr (inr (tt, refl)))
