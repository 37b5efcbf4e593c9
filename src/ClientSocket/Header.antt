-- ===== src/ClientSocket/Header.antt =====
-- src/client/Client/ClientSocket.cpp: the header part of a round of `ReadHandler`.
use warhead_discord_client.Common.{
  ℕ, ◌+◌, ◌-◌, ◌<◌, ◌≡◌, refl, ap, ◌∙◌, Bool, true, false, some, inl, inr, ◌⊎◌, arith, length,
  length-resize, length-splice, if◌then◌else◌, dec_lt,
}
use warhead_discord_client.Common.Bytes.{le_bytes, length-le_bytes}
use warhead_discord_client.MessageBuffer.{
  MessageBuffer, active_size, read_bytes, remaining_space, resized,
}
use warhead_discord_client.MessageBuffer.Laws.{
  content, length-content, active_size-content, remaining_space-valid,
}
use warhead_discord_client.MessageBuffer.Laws
use warhead_discord_client.PacketHeader.{
  header_length, endian_convert_reverse, header_at, is_valid_size,
}
use warhead_discord_client.ClientSocket.{read_header_handler, with_size}
use warhead_discord_client.ClientSocket.State.{ClientSocket, Result, done}
use warhead_discord_client.ClientSocket.Loop.{
  Flow, goes_on, breaks, returns, set_read_buffer, close, receive, got_header, take_header,
}
use warhead_discord_client.ClientSocket.Reading.{Received, receive-Received, moves, Framed}
use warhead_discord_client.ClientSocket.Framing.{
  Ends, close_socket-closes, unread, Full, Headed, room_after,
}

-- The size that a header names, on the wire and without the opcode.
abbrev pub size_of : MessageBuffer → ℕ
size_of m = endian_convert_reverse (header_at (read_bytes m header_length)).size

-- The two results of `ReadHeaderHandler`.
read_header_handler-cases :
    (c : ClientSocket)
    → ((size_of c.header_buffer - 2 < 10000)
        × (read_header_handler c ≡ (
          true,
          record c {
            header_buffer = with_size (size_of c.header_buffer - 2) c.header_buffer;
            packet_buffer = resized c.packet_buffer (size_of c.header_buffer - 2);
          },
        )))
      ⊎ (read_header_handler c ≡ (
        false,
        record c { header_buffer = with_size (size_of c.header_buffer) c.header_buffer },
      ))
unfolding read_header_handler is_valid_size
read_header_handler-cases c = ground arith

-- A full header buffer stays so when its size is set.
pub with_size-Full : (k : ℕ) (m : MessageBuffer) → Full m → Full (with_size k m)
with_size-Full k m f = record {
  valid = record { ordered = f.valid.ordered; within = omega (arith, l); small = omega (arith, l) };
  start = f.start;
  size = l;
  whole = f.whole;
}
  where
    l : length (with_size k m).storage ≡ 6
    l = length-splice m.rpos (le_bytes 4 k) m.storage (omega (arith, length-le_bytes 4 k)) ∙ f.size

pub resized-IsValid :
    (m : MessageBuffer) (k : ℕ) → m.rpos ≡ 0 → m.wpos ≡ 0 → k < 10000 → Laws.IsValid (resized m k)
unfolding resized
resized-IsValid m k r w h = record {
  ordered = omega arith;
  within = omega (arith, length-resize k 0 m.storage);
  small = omega (arith, length-resize k 0 m.storage);
}

pub resized-fields : (m : MessageBuffer) (k : ℕ) → ((resized m k).rpos ≡ m.rpos)
unfolding resized
resized-fields m k = refl

abbrev pub with_header : MessageBuffer → MessageBuffer → ClientSocket → ClientSocket
with_header packet header c = record (set_read_buffer packet c) { header_buffer = header }

abbrev pub on_valid : Bool × ClientSocket → Result Flow × ClientSocket
on_valid (valid, d) = if valid then (done goes_on, d) else (done returns, close d)

pub got_header-breaks :
    (packet header : MessageBuffer) (c : ClientSocket)
    → 0 < remaining_space header
    → active_size packet ≡ 0
    → got_header (some (packet, header)) c ≡ (done breaks, with_header packet header c)
got_header-breaks packet header c h e = ground arith

pub got_header-whole :
    (packet header : MessageBuffer) (c : ClientSocket)
    → remaining_space header ≡ 0
    → active_size header ≡ 6
    → got_header (some (packet, header)) c
      ≡ on_valid (read_header_handler (with_header packet header c))
got_header-whole packet header c h e = ground arith

on_valid-Ends :
    (n : ℕ) (c : ClientSocket)
    → Laws.IsValid c.socket.read_buffer
    → 0 < length c.socket.read_buffer.storage
    → Full c.header_buffer
    → c.packet_buffer.rpos ≡ 0
    → c.packet_buffer.wpos ≡ 0
    → unread c < n
    → Ends (Headed n) (on_valid (read_header_handler c))
on_valid-Ends n c v sp f ps pw l = elim (read_header_handler-cases c) [
  | inl (b, e) ↦ rw e (record {
    read_valid = v;
    read_space = sp;
    header_full = with_size-Full (size_of c.header_buffer - 2) c.header_buffer f;
    packet_valid = resized-IsValid c.packet_buffer (size_of c.header_buffer - 2) ps pw b;
    packet_start = resized-fields c.packet_buffer (size_of c.header_buffer - 2) ∙ ps;
    progress = inl l;
  })
  | inr e ↦ rw e (close_socket-closes c.socket)
]

-- `got_header` on what a transfer gave.
got_header-Ends :
    (c : ClientSocket) (packet header : MessageBuffer)
    → Framed c
    → c.header_buffer.wpos < 6
    → 0 < unread c
    → Received c.socket.read_buffer c.header_buffer packet header
    → Ends (Headed (unread c)) (got_header (some (packet, header)) c)
got_header-Ends c packet header f l p r = elim (dec_lt 0 (remaining_space header)) [
  | yes h ↦ rw (got_header-breaks packet header c h (omega (arith, room, r.left))) (
    record {
      read_valid = r.packet_valid;
      read_space = omega (arith, r.read_space, f.read_space);
      header_valid = r.target_valid;
      header_start = r.start ∙ f.header_start;
      header_size = r.space ∙ f.header_size;
      packet_valid = f.packet_valid;
      packet_start = f.packet_start;
      no_payload = λ _. f.no_payload l;
      awaits = λ e.
          absurd
            (omega (arith, e, h, remaining_space-valid r.target_valid, r.space, f.header_size));
    },
    omega (arith, room, r.left),
  )
  | no h ↦ rw (got_header-whole packet header c (omega arith) (six h)) (
      on_valid-Ends (unread c) (with_header packet header c) r.packet_valid
        (omega (arith, r.read_space, f.read_space))
        (record {
          valid = r.target_valid;
          start = r.start ∙ f.header_start;
          size = r.space ∙ f.header_size;
          whole = omega (arith, remaining_space-valid r.target_valid, r.space, f.header_size);
        })
        f.packet_start (f.no_payload l)
        (omega (arith, room, r.left, remaining_space-valid f.header_valid, f.header_size)))
]
  where
    room :
        remaining_space header + moves c.socket.read_buffer c.header_buffer
        ≡ remaining_space c.header_buffer
    room = room_after r f.header_valid f.header_start

    six : ¬ (0 < remaining_space header) → active_size header ≡ 6
    six h = omega (
      arith,
      active_size-content r.target_valid,
      length-content r.target_valid,
      remaining_space-valid r.target_valid,
      r.space,
      r.start,
      f.header_start,
      f.header_size,
    )

pub take_header-reads :
    (c : ClientSocket)
    → 0 < remaining_space c.header_buffer
    → take_header c ≡ got_header (receive c.socket.read_buffer c.header_buffer) c
unfolding take_header
take_header-reads c h = ground arith

pub take_header-full :
    (c : ClientSocket) → remaining_space c.header_buffer ≡ 0 → take_header c ≡ (done goes_on, c)
unfolding take_header
take_header-full c h = ground arith

pub take_header-Ends :
    (c : ClientSocket) → Framed c → 0 < unread c → Ends (Headed (unread c)) (take_header c)
take_header-Ends c f p = elim (dec_lt 0 (remaining_space c.header_buffer)) [
  | yes h ↦
      let (packet, header, e, r) =
        receive-Received c.socket.read_buffer c.header_buffer f.read_valid f.header_valid in
      rw (take_header-reads c h ∙ ap (λ o. got_header o c) e) (
        got_header-Ends c packet header f
          (omega (arith, remaining_space-valid f.header_valid, f.header_size)) p r)
  | no h ↦
      let six : c.header_buffer.wpos ≡ 6 =
        omega (arith, remaining_space-valid f.header_valid, f.header_size) in
      rw (take_header-full c (omega arith)) (record {
        read_valid = f.read_valid;
        read_space = f.read_space;
        header_full = record {
          valid = f.header_valid;
          start = f.header_start;
          size = f.header_size;
          whole = six;
        };
        packet_valid = f.packet_valid;
        packet_start = f.packet_start;
        progress = inr (refl, omega (arith, f.awaits six, remaining_space-valid f.packet_valid));
      })
]
