-- ===== src/ClientSocket/Framing.antt =====
-- src/client/Client/ClientSocket.cpp: what the parts of a round of `ReadHandler` come to.
use warhead_discord_client.Common.{ℕ, ◌+◌, ◌<◌, ◌≡◌, ◌⊎◌, false, arith, length}
use warhead_discord_client.MessageBuffer.{MessageBuffer, active_size, remaining_space}
use warhead_discord_client.MessageBuffer.Laws.{
  content, length-content, active_size-content, remaining_space-valid,
}
use warhead_discord_client.MessageBuffer.Laws
use warhead_discord_client.Socket.{Socket, is_open, close_socket}
use warhead_discord_client.ClientSocket.State.{
  ClientSocket, Result, done, threw, out_of_range, assert_failed, undefined, Handler,
}
use warhead_discord_client.ClientSocket.Loop.{Flow, goes_on, breaks, returns, and_on}
use warhead_discord_client.ClientSocket.Reading.{Received, moves, Framed}

abbrev pub unread : ClientSocket → ℕ
unread c = active_size c.socket.read_buffer

-- What a part of a round comes to, where P holds of a socket that goes on.
abbrev pub Ends : (ClientSocket → Type 0) → Result Flow × ClientSocket → Type 0
Ends P (done goes_on, d) = P d
Ends P (done breaks, d) = Framed d × (unread d ≡ 0)
Ends P (done returns, d) = is_open d.socket ≡ false
Ends P (threw e, d) = Unit {0}
Ends P (out_of_range, d) = Unit {0}
Ends P (assert_failed, d) = ⊥
Ends P (undefined, d) = ⊥

pub and_on-Ends :
    (P Q : ClientSocket → Type 0) (r : Result Flow) (c : ClientSocket) (k : Handler Flow)
    → Ends P (r, c)
    → ((d : ClientSocket) → P d → Ends Q (k d))
    → Ends Q (and_on (r, c) k)
and_on-Ends P Q (done goes_on) c k p f = f c p
and_on-Ends P Q (done breaks) c k p f = p
and_on-Ends P Q (done returns) c k p f = p
and_on-Ends P Q (threw e) c k p f = tt
and_on-Ends P Q out_of_range c k p f = tt
and_on-Ends P Q assert_failed c k p f = absurd p
and_on-Ends P Q undefined c k p f = absurd p

-- The header buffer with six bytes.
pub record Full (m : MessageBuffer) : Type 0 where
  pub valid : Laws.IsValid m
  pub start : m.rpos ≡ 0
  pub size : length m.storage ≡ 6
  pub whole : m.wpos ≡ 6

-- The socket d with a whole header, in a round that began with n unread bytes.
pub record Headed (n : ℕ) (d : ClientSocket) : Type 0 where
  pub read_valid : Laws.IsValid d.socket.read_buffer
  pub read_space : 0 < length d.socket.read_buffer.storage
  pub header_full : Full d.header_buffer
  pub packet_valid : Laws.IsValid d.packet_buffer
  pub packet_start : d.packet_buffer.rpos ≡ 0
  pub progress : (unread d < n) ⊎ ((unread d ≡ n) × (0 < remaining_space d.packet_buffer))

-- The socket d with a whole packet.
pub record Whole (n : ℕ) (d : ClientSocket) : Type 0 where
  pub read_valid : Laws.IsValid d.socket.read_buffer
  pub read_space : 0 < length d.socket.read_buffer.storage
  pub header_full : Full d.header_buffer
  pub packet_valid : Laws.IsValid d.packet_buffer
  pub progress : unread d < n

-- The socket d ready for the next round.
abbrev pub Next : ℕ → ClientSocket → Type 0
Next n d = Framed d × (unread d < n)

-- Where a transfer into a buffer that is read from its start leaves the write position and the room.
pub wpos_after :
    {packet target packet' target' : MessageBuffer}
    → Received packet target packet' target'
    → Laws.IsValid target
    → target.rpos ≡ 0
    → target'.wpos ≡ target.wpos + moves packet target
wpos_after {packet} {target} {packet'} {target'} r v s =
    omega (arith, r.taken, r.start, length-content v, length-content r.target_valid)

pub room_after :
    {packet target packet' target' : MessageBuffer}
    → Received packet target packet' target'
    → Laws.IsValid target
    → target.rpos ≡ 0
    → remaining_space target' + moves packet target ≡ remaining_space target
room_after {packet} {target} {packet'} {target'} r v s = omega (
  arith,
  wpos_after r v s,
  remaining_space-valid v,
  remaining_space-valid r.target_valid,
  r.space,
)

pub close_socket-closes : (s : Socket) → is_open (close_socket s) ≡ false
unfolding is_open close_socket
close_socket-closes s = ground arith
