-- ===== src/ClientSocket.antt =====
-- src/client/Client/ClientSocket.cpp: the client's connection to the Discord server, on top of Socket.
-- Logging is left out; the clock and the strings of GitRevision are parameters.
pub mod State
pub mod Sending
pub mod Loop
pub mod Reading
pub mod Handlers
pub mod Framing
pub mod Header
pub mod Payload
pub mod Rounds
pub mod Frames
pub mod Cutting
pub mod CutFrames
pub mod Streams
pub mod Packets
pub mod Reads
mod Runs
use warhead_discord_client.Common.{
  ℕ, zero, suc, ◌+◌, ◌-◌, ◌%◌, ◌^◌, min, Bool, true, false, not, ◌&&◌, Option, none, some, List, [],
  ◌∷◌, ◌++◌, length, splice, ltb, leb, ◌==◌, if◌then◌else◌,
}
use warhead_discord_client.Common.Bytes.{add64, sub64, le_bytes}
use warhead_discord_client.ByteBuffer.{
  empty_buffer, size, of_message, append_uint, append_string, read_uint,
}
use warhead_discord_client.ByteBuffer.State.{ByteBuffer, Outcome, M, ◌>>=◌, ◌>>◌}
use warhead_discord_client.MessageBuffer.{
  MessageBuffer, sized, default_size, reset, resized, read_completed, active_size, remaining_space,
  read_bytes, write, moved,
}
use warhead_discord_client.PacketHeader.{
  ClientHeader, server_header, header_length, header_at, endian_convert_reverse, is_valid_size,
  is_valid_opcode,
}
use warhead_discord_client.Socket.{Socket, opened, is_open, queue_packet, close_socket, async_read}
use warhead_discord_client.Socket
use State.{
  DiscordPacket, ClientSocket, Result, done, threw, out_of_range, assert_failed, undefined, Handler,
  chain, or_undefined, option_then,
}

-- Opcodes of `DiscordCode` that the client uses.
abbrev pub client_auth_session : ℕ
client_auth_session = 2

abbrev pub client_send_ping : ℕ
client_send_ping = 5

abbrev pub server_send_auth_response : ℕ
server_send_auth_response = 6

abbrev pub server_send_pong : ℕ
server_send_pong = 7

-- A configuration value that is empty: the manager, which does not hold this socket yet, is told to
-- disconnect, and the socket is closed.
abbrev pub reject_if : Bool → ClientSocket → ClientSocket
reject_if empty c =
    if empty
    then record c { disconnects = c.disconnects + 1; socket = close_socket c.socket }
    else c

-- The members as the constructor sets them, before it looks at the configuration.
unfoldable pub fresh : (account_name account_key : List ℕ) (server_id : ℕ) → ClientSocket
fresh account_name account_key server_id = record {
  socket = opened;
  header_buffer = resized (sized default_size) header_length;
  packet_buffer = sized default_size;
  authed = false;
  account_name = account_name;
  account_key = account_key;
  server_id = server_id;
  start_time = 0;
  latency = 0;
  buffer_queue = [];
  disconnects = 0;
}

-- The constructor, on the configured account and server.
unfoldable pub constructed : (account_name account_key : List ℕ) (server_id : ℕ) → ClientSocket
unfolding fresh
constructed account_name account_key server_id = reject_if (length account_key == 0) (
    reject_if (length account_name == 0)
      (reject_if (server_id == 0) (fresh account_name account_key server_id)))

-- The two writes of `SendPacket`.
unfoldable pub fill : DiscordPacket → MessageBuffer → Option MessageBuffer
fill p m =
    option_then (write m (server_header ((size p.payload + 2) % 2 ^ 32) p.opcode))
      (λ m'. if size p.payload == 0 then some m' else write m' p.payload.storage)

abbrev pub queue_active : MessageBuffer → Socket → Socket
queue_active m s = if ltb 0 (active_size m) then queue_packet m s else s

-- `SendPacket` on an open socket, where `full` is its local buffer. A packet that does not fit first
-- queues that buffer, which is then a moved-from one with no space.
unfoldable pub send_with : MessageBuffer → DiscordPacket → Socket → Option Socket
unfolding fill
send_with full p s =
    let n = add64 (size p.payload) header_length in
    let small = ltb (remaining_space full) n in
    let buffer = if small then (moved full).1 else full in
    let s' = if small then queue_packet (moved full).0 s else s in
    if leb n (remaining_space buffer)
    then option_then (fill p buffer) (λ b. some (queue_active b s'))
    else option_then (fill p (sized n)) (λ b. some (queue_active buffer (queue_packet b s')))

unfoldable pub send_packet : DiscordPacket → Socket → Option Socket
unfolding send_with
send_packet p s = if not (is_open s) then some s else send_with (sized default_size) p s

abbrev pub on_socket : Option Socket → Handler (Unit {0})
on_socket none c = (undefined, c)
on_socket (some s) c = (done tt, record c { socket = s })

-- A packet whose payload is the outcome of writing to an empty buffer.
abbrev pub send_written : ℕ → Outcome (Unit {0}) × ByteBuffer → Handler (Unit {0})
send_written opcode (Outcome.ok u, b) c =
    on_socket (send_packet (record { opcode = opcode; payload = b }) c.socket) c
send_written opcode (Outcome.throw e, b) c = (threw e, c)
send_written opcode (Outcome.assert_failed, b) c = (assert_failed, c)
send_written opcode (Outcome.undefined, b) c = (undefined, c)

-- `SendPingMessage` at the time `now`.
unfoldable pub send_ping_message : ℕ → Handler (Unit {0})
unfolding send_packet
send_ping_message now c =
    send_written client_send_ping ((do append_uint 8 now; append_uint 8 c.latency) empty_buffer) c

-- `SendAuthSession`: the version strings come from the build.
unfoldable pub send_auth_session : (company version : List ℕ) (now : ℕ) → Handler (Unit {0})
unfolding send_packet
send_auth_session company version now c =
    let (r, c') =
      send_written client_auth_session
        ((do
          append_string c.account_name
          append_string c.account_key
          append_string company
          append_string version
          append_uint 4 100000
          append_uint 8 c.server_id)
          empty_buffer)
        c in
    chain r (λ u d. (done tt, record d { start_time = now; socket = async_read d.socket })) c'

-- `sClientSocketMgr->Disconnect()`, where the manager holds this socket.
unfoldable pub disconnect : ClientSocket → ClientSocket
disconnect c = record c {
  disconnects = c.disconnects + 1;
  socket = if is_open c.socket then close_socket c.socket else c.socket;
}

abbrev pub to_result : {A : Type 0} → Outcome A → Result A
to_result (Outcome.ok a) = done a
to_result (Outcome.throw e) = threw e
to_result Outcome.assert_failed = assert_failed
to_result Outcome.undefined = undefined

-- The code of `DiscordAuthResponseCodes` as `HandleAuthResponce` uses it: `EnumUtils::ToTitle` knows
-- nine codes and throws on any other.
unfoldable pub on_auth_code : ℕ → ℕ → Handler (Unit {0})
unfolding send_ping_message disconnect
on_auth_code now code c =
    if ltb 8 code
    then (out_of_range, c)
    else if code == 0
    then send_ping_message now (record c { authed = true })
    else (done tt, disconnect c)

unfoldable pub handle_auth_responce : ℕ → ByteBuffer → Handler (Unit {0})
unfolding on_auth_code
handle_auth_responce now packet = chain (to_result (read_uint 1 packet).0) (on_auth_code now)

unfoldable pub handle_pong : ℕ → ByteBuffer → Handler (Unit {0})
handle_pong now packet =
    chain (to_result (read_uint 8 packet).0)
      (λ time_packet c. (done tt, record c { latency = sub64 now time_packet }))

pub data ReadDataHandlerResult : Type 0 where
  ok error waiting_for_query : ReadDataHandlerResult

abbrev pub then_ok : Result (Unit {0}) × ClientSocket → Result ReadDataHandlerResult × ClientSocket
then_ok (r, c) = chain r (λ u d. (done ok, d)) c

-- The switch of `ReadDataHandler` on the opcode.
unfoldable pub dispatch : ℕ → ℕ → ByteBuffer → Handler ReadDataHandlerResult
unfolding handle_auth_responce handle_pong disconnect
dispatch now opcode packet c =
    if opcode == server_send_auth_response
    then if c.authed
      then (done error, disconnect c)
      else then_ok (handle_auth_responce now packet c)
    else if opcode == server_send_pong
    then if not c.authed then (done error, disconnect c) else then_ok (handle_pong now packet c)
    else (done error, c)

-- `ReadDataHandler`: the packet takes the storage of the packet buffer.
unfoldable pub read_data_handler : ℕ → Handler ReadDataHandlerResult
unfolding dispatch
read_data_handler now c =
    let (packet, rest) = of_message c.packet_buffer in
    dispatch now (header_at (read_bytes c.header_buffer header_length)).cmd packet
      (record c { packet_buffer = rest })

-- The header buffer with the size that `header->size` holds.
abbrev pub with_size : ℕ → MessageBuffer → MessageBuffer
with_size n m = record m { storage = splice m.rpos (le_bytes 4 n) m.storage }

-- `ReadHeaderHandler` past its assertion. The header is converted in place.
unfoldable pub read_header_handler : ClientSocket → Bool × ClientSocket
read_header_handler c =
    let raw = header_at (read_bytes c.header_buffer header_length) in
    let h : ClientHeader = record raw { size = endian_convert_reverse raw.size } in
    if is_valid_size h && is_valid_opcode h
    then (
      true,
      record c {
        header_buffer = with_size (h.size - 2) c.header_buffer;
        packet_buffer = resized c.packet_buffer (h.size - 2);
      },
    )
    else (false, record c { header_buffer = with_size h.size c.header_buffer })
