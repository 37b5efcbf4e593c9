-- ===== src/ClientSocket/Cutting.antt =====
-- src/client/Client/ClientSocket.cpp: what a round of `ReadHandler` cuts out of the bytes, and the part of it that reads the payload.
use warhead_discord_client.Common.{
  ℕ, ◌+◌, ◌-◌, ◌<◌, ◌≡◌, refl, sym, ap, ◌∙◌, subst, true, some, if◌then◌else◌, ◌==◌, List, [], ◌++◌,
  append-nil, arith, length, take, drop, take-all, take-append_eq, drop-append_eq, length-append,
  dec_lt,
}
use warhead_discord_client.MessageBuffer.{MessageBuffer, active_size, remaining_space, read_bytes}
use warhead_discord_client.MessageBuffer.Laws.{
  content, length-content, active_size-content, remaining_space-valid, read_bytes-content,
}
use warhead_discord_client.MessageBuffer.Laws
use warhead_discord_client.PacketHeader.{header_length, header_at}
use warhead_discord_client.ClientSocket.State.{ClientSocket, Result, done}
use warhead_discord_client.ClientSocket.Loop.{
  Flow, goes_on, breaks, returns, take_header, got_payload, take_payload, and_on,
}
use warhead_discord_client.ClientSocket.Reading.{Received, receive-Received, moves}
use warhead_discord_client.ClientSocket.Framing.{room_after}
use warhead_discord_client.ClientSocket.Payload.{
  with_payload, take_payload-reads, take_payload-full, got_payload-breaks, got_payload-whole,
}
use warhead_discord_client.ClientSocket.Frames.{
  Partial, in_header, in_payload, Frame, incomplete, malformed, whole, frame_payload,
  frame_payload-short, frame_payload-whole,
}

-- The opcode in a whole header.
abbrev pub cmd_of : MessageBuffer → ℕ
cmd_of m = (header_at (read_bytes m header_length)).cmd

-- What the header buffer and the packet buffer hold of a frame.
abbrev pub partial_of : ClientSocket → Partial
partial_of c =
    if c.header_buffer.wpos == 6
    then in_payload (cmd_of c.header_buffer) (length c.packet_buffer.storage)
        (content c.packet_buffer)
    else in_header (content c.header_buffer)

-- The unread bytes.
abbrev pub arrived : ClientSocket → List ℕ
arrived c = content c.socket.read_buffer

-- The part of a round before the packet is handled.
abbrev pub cut : ClientSocket → Result Flow × ClientSocket
cut c = and_on (take_header c) take_payload

-- What `cut` comes to by the frame that the bytes make.
abbrev pub CutsTo : Frame → Result Flow × ClientSocket → Type 0
CutsTo (incomplete p) (r, d) = (r ≡ done breaks) × (partial_of d ≡ p) × (arrived d ≡ [])
CutsTo malformed (r, d) = (r ≡ done returns) × (d.socket.closed ≡ true)
CutsTo (whole cmd payload rest) (r, d) =
    (r ≡ done goes_on)
    × (cmd_of d.header_buffer ≡ cmd)
    × (d.packet_buffer.storage ≡ payload)
    × (arrived d ≡ rest)

pub partial_of-header :
    (c : ClientSocket)
    → c.header_buffer.wpos < 6
    → partial_of c ≡ in_header (content c.header_buffer)
partial_of-header c h = ground arith

pub partial_of-payload :
    (c : ClientSocket)
    → c.header_buffer.wpos ≡ 6
    → partial_of c
      ≡ in_payload
          (cmd_of c.header_buffer)
          (length c.packet_buffer.storage)
          (content c.packet_buffer)
partial_of-payload c h = ground arith

pub take_none : (n : ℕ) (xs : List ℕ) → n ≡ 0 → take n xs ≡ []
take_none n xs e = ap (λ k. take k xs) e

pub empty_content : {m : MessageBuffer} → Laws.IsValid m → active_size m ≡ 0 → content m ≡ []
empty_content {m} v h =
    take_none (m.wpos - m.rpos) (drop m.rpos m.storage)
      (omega (arith, active_size-content v, length-content v))

-- A buffer that is full from its start holds its whole storage.
full_content : (m : MessageBuffer) → m.rpos ≡ 0 → m.wpos ≡ length m.storage → content m ≡ m.storage
full_content m s w =
    ap (λ i. take (m.wpos - i) (drop i m.storage)) s ∙ take-all (m.wpos - 0) m.storage (omega arith)

-- A socket with a whole header whose payload is to be read.
pub record Reads (c : ClientSocket) : Type 0 where
  pub read_valid : Laws.IsValid c.socket.read_buffer
  pub header_whole : c.header_buffer.wpos ≡ 6
  pub packet_valid : Laws.IsValid c.packet_buffer
  pub packet_start : c.packet_buffer.rpos ≡ 0

module _ (c : ClientSocket) (packet payload : MessageBuffer) (f : Reads c)
    (r : Received c.socket.read_buffer c.packet_buffer packet payload) where
  payload_room :
      remaining_space payload + moves c.socket.read_buffer c.packet_buffer
      ≡ remaining_space c.packet_buffer
  payload_room = room_after r f.packet_valid f.packet_start

  payload_length :
      length (content payload) + remaining_space payload ≡ length c.packet_buffer.storage
  payload_length = omega (
    arith,
    length-content r.target_valid,
    remaining_space-valid r.target_valid,
    r.space,
    r.start,
    f.packet_start,
  )

  got_payload-CutsTo :
      CutsTo
        (frame_payload
          (cmd_of c.header_buffer)
          (length c.packet_buffer.storage)
          (content c.packet_buffer ++ arrived c))
        (got_payload (some (packet, payload)) c)
  got_payload-CutsTo = elim (dec_lt 0 (remaining_space payload)) [
    | yes room ↦
        let k = length c.packet_buffer.storage in
        let d = with_payload packet payload c in
        let none_left : active_size packet ≡ 0 = omega (arith, payload_room, r.left) in
        let empty = empty_content r.packet_valid none_left in
        let all =
          sym (append-nil (content payload))
          ∙ ap (λ l. content payload ++ l) (sym empty)
          ∙ r.kept in
        rw (got_payload-breaks packet payload c room none_left) (
          subst (λ s. CutsTo (frame_payload (cmd_of c.header_buffer) k s) (done breaks, d)) all
            (subst (λ t. CutsTo t (done breaks, d))
              (sym (
                frame_payload-short (cmd_of c.header_buffer) k (content payload)
                  (omega (arith, payload_length))))
              (
                refl,
                partial_of-payload d f.header_whole
                    ∙ ap (λ n. in_payload (cmd_of c.header_buffer) n (content payload)) r.space,
                empty,
              )))
    | no none_left ↦
        let k = length c.packet_buffer.storage in
        let d = with_payload packet payload c in
        let l : k ≡ length (content payload) = omega (arith, payload_length) in
        rw (got_payload-whole packet payload c (omega arith)) (
          subst (λ s. CutsTo (frame_payload (cmd_of c.header_buffer) k s) (done goes_on, d)) r.kept
            (subst (λ t. CutsTo t (done goes_on, d))
              (sym (
                frame_payload-whole (cmd_of c.header_buffer) k (content payload ++ content packet)
                  (omega (arith, l, length-append (content payload) (content packet)))))
              (
                refl,
                refl,
                sym (
                      full_content payload (r.start ∙ f.packet_start)
                        (omega (arith, remaining_space-valid r.target_valid)))
                    ∙ sym (take-append_eq k (content payload) (content packet) l),
                sym (drop-append_eq k (content payload) (content packet) l),
              )))
  ]

pub take_payload-CutsTo :
    (c : ClientSocket)
    → Reads c
    → CutsTo
        (frame_payload
          (cmd_of c.header_buffer)
          (length c.packet_buffer.storage)
          (content c.packet_buffer ++ arrived c))
        (take_payload c)
take_payload-CutsTo c f = elim (dec_lt 0 (remaining_space c.packet_buffer)) [
  | yes h ↦
      let (packet, payload, e, r) =
        receive-Received c.socket.read_buffer c.packet_buffer f.read_valid f.packet_valid in
      rw (take_payload-reads c h ∙ ap (λ o. got_payload o c) e)
        (got_payload-CutsTo c packet payload f r)
  | no h ↦
      let k = length c.packet_buffer.storage in
      let bytes = content c.packet_buffer in
      let l : k ≡ length bytes =
        omega (arith, remaining_space-valid f.packet_valid, length-content f.packet_valid) in
      rw (take_payload-full c (omega arith)) (
        subst (λ t. CutsTo t (done goes_on, c))
          (sym (
            frame_payload-whole (cmd_of c.header_buffer) k (bytes ++ arrived c)
              (omega (arith, l, length-append bytes (arrived c)))))
          (
            refl,
            refl,
            sym (
                  full_content c.packet_buffer f.packet_start
                    (omega (arith, remaining_space-valid f.packet_valid)))
                ∙ sym (take-append_eq k bytes (arrived c) l),
            sym (drop-append_eq k bytes (arrived c) l),
          ))
]
