-- ===== src/ClientSocket/Loop.antt =====
-- src/client/Client/ClientSocket.cpp: `ReadHandler`, the loop that cuts the received bytes into
-- headers and payloads, and `Update`, which sends the packets that wait.
use warhead_discord_client.Common.{
  ℕ, zero, suc, min, Bool, not, Option, none, some, List, [], ◌∷◌, ◌++◌, ltb, ◌==◌, if◌then◌else◌,
  length, splice,
}
use warhead_discord_client.MessageBuffer.{
  MessageBuffer, reset, read_completed, active_size, remaining_space, read_bytes, write,
  write_completed,
}
use warhead_discord_client.PacketHeader.{header_length}
use warhead_discord_client.Socket.{Socket, Answer, close_socket, async_read}
use warhead_discord_client.Socket
use warhead_discord_client.ClientSocket.{
  ReadDataHandlerResult, ok, error, waiting_for_query, read_header_handler, read_data_handler,
  send_packet, on_socket,
}
use warhead_discord_client.ClientSocket.State.{
  DiscordPacket, ClientSocket, Result, done, assert_failed, undefined, Handler, chain, option_then,
}

-- Moves as many bytes from the read buffer as there are and as the target has room for.
unfoldable pub receive : MessageBuffer → MessageBuffer → Option (MessageBuffer × MessageBuffer)
receive packet target =
    let n = min (active_size packet) (remaining_space target) in
    option_then (write target (read_bytes packet n)) (λ t. some (read_completed packet n, t))

-- How a part of a round ends: go on, `break` out of the loop, or `return` from the handler.
pub data Flow : Type 0 where
  goes_on breaks returns : Flow

abbrev pub set_read_buffer : MessageBuffer → ClientSocket → ClientSocket
set_read_buffer m c = record c { socket = record (c.socket) { read_buffer = m } }

abbrev pub close : ClientSocket → ClientSocket
close c = record c { socket = close_socket c.socket }

-- The part of the loop that reads the header.
abbrev pub got_header : Option (MessageBuffer × MessageBuffer) → Handler Flow
got_header none c = (undefined, c)
got_header (some (packet, header)) c =
    let c' = record (set_read_buffer packet c) { header_buffer = header } in
    if ltb 0 (remaining_space header)
    then if active_size packet == 0 then (done breaks, c') else (assert_failed, c')
    else if not (active_size header == header_length)
    then (assert_failed, c')
    else let (valid, d) = read_header_handler c' in
      if valid then (done goes_on, d) else (done returns, close d)

unfoldable pub take_header : Handler Flow
unfolding receive
take_header c =
    if ltb 0 (remaining_space c.header_buffer)
    then got_header (receive c.socket.read_buffer c.header_buffer) c
    else (done goes_on, c)

-- The part of the loop that reads the payload.
abbrev pub got_payload : Option (MessageBuffer × MessageBuffer) → Handler Flow
got_payload none c = (undefined, c)
got_payload (some (packet, payload)) c =
    let c' = record (set_read_buffer packet c) { packet_buffer = payload } in
    if ltb 0 (remaining_space payload)
    then if active_size packet == 0 then (done breaks, c') else (assert_failed, c')
    else (done goes_on, c')

unfoldable pub take_payload : Handler Flow
unfolding receive
take_payload c =
    if ltb 0 (remaining_space c.packet_buffer)
    then got_payload (receive c.socket.read_buffer c.packet_buffer) c
    else (done goes_on, c)

-- The end of a round: handle the packet and make room for the next header.
abbrev pub handled : ReadDataHandlerResult → Handler Flow
handled ok c = (done goes_on, record c { header_buffer = reset c.header_buffer })
handled error c = (done returns, close (record c { header_buffer = reset c.header_buffer }))
handled waiting_for_query c = (done returns, record c { header_buffer = reset c.header_buffer })

unfoldable pub handle_packet : ℕ → Handler Flow
unfolding read_data_handler
handle_packet now c = let (r, d) = read_data_handler now c in chain r handled d

abbrev pub on_flow : Flow → Handler Flow → Handler Flow
on_flow goes_on k c = k c
on_flow breaks k c = (done breaks, c)
on_flow returns k c = (done returns, c)

abbrev pub and_on : Result Flow × ClientSocket → Handler Flow → Result Flow × ClientSocket
and_on (r, c) k = chain r (λ f. on_flow f k) c

-- One round of the loop.
unfoldable pub round : ℕ → Handler Flow
unfolding take_header take_payload handle_packet
round now c = and_on (and_on (take_header c) take_payload) (handle_packet now)

-- After a round; `rest` is what the remaining rounds come to.
abbrev pub after_round :
    Result Flow × ClientSocket → Result (Unit {0}) × ClientSocket → Result (Unit {0}) × ClientSocket
after_round (r, c) rest = chain r (λ f d. stop f d) c
  where
    stop : Flow → Handler (Unit {0})
    stop goes_on d = rest
    stop breaks d = (done tt, record d { socket = async_read d.socket })
    stop returns d = (done tt, d)

-- `while (packet.GetActiveSize() > 0)`. A round that goes on has taken a byte from the read buffer, so
-- the bytes there bound the rounds. The clock shows `clock k` in round k.
unfoldable pub read_loop : ℕ → (ℕ → ℕ) → ℕ → Handler (Unit {0})
unfolding round
read_loop zero clock k c = (done tt, c)
read_loop (suc fuel) clock k c =
    let r = round (clock k) c in
    let rest = read_loop fuel clock (suc k) r.1 in
    if ltb 0 (active_size c.socket.read_buffer)
    then after_round r rest
    else (done tt, record c { socket = async_read c.socket })

unfoldable pub read_handler : (ℕ → ℕ) → Handler (Unit {0})
unfolding read_loop
read_handler clock c = read_loop (suc (active_size c.socket.read_buffer)) clock 0 c

-- `while (_bufferQueue.GetNextPacket(queuedPacket)) SendPacket(queuedPacket)`
unfoldable pub flush_queue : List DiscordPacket → Handler (Unit {0})
unfolding send_packet
flush_queue [] c = (done tt, record c { buffer_queue = [] })
flush_queue (p ∷ ps) c =
    let (r, d) = on_socket (send_packet p c.socket) (record c { buffer_queue = ps }) in
    chain r (λ u. flush_queue ps) d

unfoldable pub update : (ℕ → Answer) → Handler Bool
unfolding flush_queue
update answers c =
    let (r, d) = if c.authed then flush_queue c.buffer_queue c else (done tt, c) in
    chain r
      (λ u e.
        let (alive, s) = Socket.update answers e.socket in (done alive, record e { socket = s }))
      d

-- `AddPacketToQueue`
unfoldable pub add_packet_to_queue : DiscordPacket → ClientSocket → ClientSocket
add_packet_to_queue p c = record c { buffer_queue = c.buffer_queue ++ (p ∷ []) }

-- What the operating system does before it calls `ReadHandlerInternal`: the bytes are at the write
-- position.
abbrev pub put_in : List ℕ → MessageBuffer → MessageBuffer
put_in bytes m = record m { storage = splice m.wpos bytes m.storage }

-- `ReadHandlerInternal` after an error, or after a read of some bytes.
unfoldable pub read_handler_internal : Option (List ℕ) → (ℕ → ℕ) → Handler (Unit {0})
unfolding read_handler
read_handler_internal none clock c = (done tt, close c)
read_handler_internal (some bytes) clock c =
    let m = write_completed (put_in bytes c.socket.read_buffer) (length bytes) in
    read_handler clock (set_read_buffer m c)
