-- ===== src/ClientSocket/Payload.antt =====
-- src/client/Client/ClientSocket.cpp: the payload part of a round of `ReadHandler`.
use warhead_discord_client.Common.{ℕ, ◌+◌, ◌<◌, ◌≡◌, ap, ◌∙◌, some, inl, inr, arith, dec_lt}
use warhead_discord_client.MessageBuffer.{MessageBuffer, active_size, remaining_space}
use warhead_discord_client.MessageBuffer.Laws.{remaining_space-valid}
use warhead_discord_client.ClientSocket.State.{ClientSocket, done}
use warhead_discord_client.ClientSocket.Loop.{
  goes_on, breaks, set_read_buffer, receive, got_payload, take_payload,
}
use warhead_discord_client.ClientSocket.Reading.{Received, receive-Received, moves}
use warhead_discord_client.ClientSocket.Framing.{Ends, Headed, Whole, room_after}

abbrev pub with_payload : MessageBuffer → MessageBuffer → ClientSocket → ClientSocket
with_payload packet payload c = record (set_read_buffer packet c) { packet_buffer = payload }

pub got_payload-breaks :
    (packet payload : MessageBuffer) (c : ClientSocket)
    → 0 < remaining_space payload
    → active_size packet ≡ 0
    → got_payload (some (packet, payload)) c ≡ (done breaks, with_payload packet payload c)
got_payload-breaks packet payload c h e = ground arith

pub got_payload-whole :
    (packet payload : MessageBuffer) (c : ClientSocket)
    → remaining_space payload ≡ 0
    → got_payload (some (packet, payload)) c ≡ (done goes_on, with_payload packet payload c)
got_payload-whole packet payload c h = ground arith

pub take_payload-reads :
    (c : ClientSocket)
    → 0 < remaining_space c.packet_buffer
    → take_payload c ≡ got_payload (receive c.socket.read_buffer c.packet_buffer) c
unfolding take_payload
take_payload-reads c h = ground arith

pub take_payload-full :
    (c : ClientSocket) → remaining_space c.packet_buffer ≡ 0 → take_payload c ≡ (done goes_on, c)
unfolding take_payload
take_payload-full c h = ground arith

got_payload-Ends :
    (n : ℕ) (c : ClientSocket) (packet payload : MessageBuffer)
    → Headed n c
    → 0 < remaining_space c.packet_buffer
    → 0 < n
    → Received c.socket.read_buffer c.packet_buffer packet payload
    → Ends (Whole n) (got_payload (some (packet, payload)) c)
got_payload-Ends n c packet payload f h p r = elim (dec_lt 0 (remaining_space payload)) [
  | yes room ↦ rw (got_payload-breaks packet payload c room (omega (arith, left, r.left))) (
    record {
      read_valid = r.packet_valid;
      read_space = omega (arith, r.read_space, f.read_space);
      header_valid = f.header_full.valid;
      header_start = f.header_full.start;
      header_size = f.header_full.size;
      packet_valid = r.target_valid;
      packet_start = r.start ∙ f.packet_start;
      no_payload = λ l. absurd (omega (arith, l, f.header_full.whole));
      awaits = λ _. omega (arith, remaining_space-valid r.target_valid, room);
    },
    omega (arith, left, r.left),
  )
  | no none_left ↦ rw (got_payload-whole packet payload c (omega arith)) (record {
    read_valid = r.packet_valid;
    read_space = omega (arith, r.read_space, f.read_space);
    header_full = f.header_full;
    packet_valid = r.target_valid;
    progress = elim f.progress [
      | inl l ↦ omega (arith, left, r.left)
      | inr (e, room) ↦ omega (arith, left, r.left)
    ];
  })
]
  where
    left :
        remaining_space payload + moves c.socket.read_buffer c.packet_buffer
        ≡ remaining_space c.packet_buffer
    left = room_after r f.packet_valid f.packet_start

pub take_payload-Ends :
    (n : ℕ) (c : ClientSocket) → Headed n c → 0 < n → Ends (Whole n) (take_payload c)
take_payload-Ends n c f p = elim (dec_lt 0 (remaining_space c.packet_buffer)) [
  | yes h ↦
      let (packet, payload, e, r) =
        receive-Received c.socket.read_buffer c.packet_buffer f.read_valid f.packet_valid in
      rw (take_payload-reads c h ∙ ap (λ o. got_payload o c) e)
        (got_payload-Ends n c packet payload f h p r)
  | no h ↦ rw (take_payload-full c (omega arith)) (record {
    read_valid = f.read_valid;
    read_space = f.read_space;
    header_full = f.header_full;
    packet_valid = f.packet_valid;
    progress = elim f.progress [ inl l ↦ l | inr (e, room) ↦ absurd (omega arith) ];
  })
]
