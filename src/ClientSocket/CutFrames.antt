-- ===== src/ClientSocket/CutFrames.antt =====
-- src/client/Client/ClientSocket.cpp: a round of `ReadHandler` cuts exactly one frame out of the bytes.
use warhead_discord_client.Common.{
  ℕ, ◌+◌, ◌-◌, ◌<◌, ◌≡◌, refl, sym, ap, ap₂, ◌∙◌, subst, true, false, Bool-cases, some, inl, inr,
  [], ◌++◌, append-nil, arith, length, take, drop, take-all, take-append_eq, drop-append_eq,
  length-append, dec_lt, drop-splice, drop-take, drop-drop, splice, resize, length-resize,
}
use warhead_discord_client.Common.Bytes.{le_bytes, le_value, length-le_bytes}
use warhead_discord_client.MessageBuffer.{
  MessageBuffer, active_size, remaining_space, read_bytes, resized,
}
use warhead_discord_client.MessageBuffer.Laws.{
  content, length-content, active_size-content, remaining_space-valid, read_bytes-content,
}
use warhead_discord_client.MessageBuffer.Laws
use warhead_discord_client.PacketHeader.{ClientHeader, is_valid_size, header_length, header_at}
use warhead_discord_client.Socket.{Socket, close_socket}
use warhead_discord_client.ClientSocket.{read_header_handler, with_size}
use warhead_discord_client.ClientSocket.State.{ClientSocket, done}
use warhead_discord_client.ClientSocket.Loop.{
  breaks, returns, close, got_header, take_payload, and_on,
}
use warhead_discord_client.ClientSocket.Reading.{Received, receive-Received, moves, Framed}
use warhead_discord_client.ClientSocket.Framing.{Full, room_after}
use warhead_discord_client.ClientSocket.Header.{
  take_header-reads, take_header-full, got_header-breaks, got_header-whole, with_header, on_valid,
  resized-IsValid, resized-fields,
}
use warhead_discord_client.ClientSocket.Frames.{
  frame, frame_payload, frame_header, converted, is_accepted, accept, frame_header-short,
  frame_header-whole,
}
use warhead_discord_client.ClientSocket.Cutting.{
  cmd_of, partial_of, arrived, cut, CutsTo, partial_of-header, partial_of-payload, take_none,
  empty_content, Reads, take_payload-CutsTo,
}

-- Setting the size leaves the opcode.
cmd_of-with_size : (k : ℕ) (m : MessageBuffer) → Full m → cmd_of (with_size k m) ≡ cmd_of m
unfolding header_at read_bytes
cmd_of-with_size k m f =
    let i = m.rpos + 4 in
    let before =
      drop-take 4 2 6 (drop m.rpos m.storage) refl
      ∙ ap (take 2) (drop-drop 4 m.rpos i m.storage refl) in
    let bytes = splice m.rpos (le_bytes 4 k) m.storage in
    let after =
      drop-take 4 2 6 (drop m.rpos bytes) refl ∙ ap (take 2) (drop-drop 4 m.rpos i bytes refl) in
    let same =
      drop-splice m.rpos i (le_bytes 4 k) m.storage (omega (arith, f.start))
        (omega (arith, length-le_bytes 4 k)) in
    ap (λ l. le_value (take 2 l)) (after ∙ ap (take 2) same ∙ sym before)

close_socket-closed : (s : Socket) → (close_socket s).closed ≡ true
unfolding close_socket
close_socket-closed s = ground arith

module _ (c : ClientSocket) where
  accepts :
      is_accepted (converted (read_bytes c.header_buffer header_length)) ≡ true
      → read_header_handler c ≡ (
        true,
        record c {
          header_buffer =
              with_size
                ((converted (read_bytes c.header_buffer header_length)).size - 2)
                c.header_buffer;
          packet_buffer =
              resized c.packet_buffer
                ((converted (read_bytes c.header_buffer header_length)).size - 2);
        },
      )
  unfolding read_header_handler converted
  accepts e = ground arith

  refuses :
      is_accepted (converted (read_bytes c.header_buffer header_length)) ≡ false
      → read_header_handler c ≡ (
        false,
        record c {
          header_buffer =
              with_size (converted (read_bytes c.header_buffer header_length)).size c.header_buffer;
        },
      )
  unfolding read_header_handler converted
  refuses e = ground arith

-- The sizes that `IsValidSize` accepts.
accepted_size : (h : ClientHeader) → is_accepted h ≡ true → h.size - 2 < 10000
unfolding is_valid_size
accepted_size h e = ground arith

resized-content : (m : MessageBuffer) (k : ℕ) → m.rpos ≡ 0 → m.wpos ≡ 0 → content (resized m k) ≡ []
unfolding resized
resized-content m k r w =
    take_none (m.wpos - m.rpos) (drop m.rpos (resize k 0 m.storage)) (omega arith)

resized-length : (m : MessageBuffer) (k : ℕ) → length (resized m k).storage ≡ k
unfolding resized
resized-length m k = length-resize k 0 m.storage

-- A whole header: the rest of a round.
on_valid-CutsTo :
    (c : ClientSocket)
    → Laws.IsValid c.socket.read_buffer
    → Full c.header_buffer
    → c.packet_buffer.rpos ≡ 0
    → c.packet_buffer.wpos ≡ 0
    → (let h = converted (read_bytes c.header_buffer header_length) in
        CutsTo
          (accept (is_accepted h) h (arrived c))
          (and_on (on_valid (read_header_handler c)) take_payload))
unfolding converted
on_valid-CutsTo c v f ps pw =
    elim (Bool-cases (is_accepted (converted (read_bytes c.header_buffer header_length)))) [
      | inl e ↦
          let h = converted (read_bytes c.header_buffer header_length) in
          let n = h.size - 2 in
          let d : ClientSocket = record c {
            header_buffer = with_size n c.header_buffer;
            packet_buffer = resized c.packet_buffer n;
          } in
          let reads : Reads d = record {
            read_valid = v;
            header_whole = f.whole;
            packet_valid = resized-IsValid c.packet_buffer n ps pw (accepted_size h e);
            packet_start = resized-fields c.packet_buffer n ∙ ps;
          } in
          let same : frame_payload (cmd_of d.header_buffer) (length d.packet_buffer.storage)
                (content d.packet_buffer ++ arrived d)
              ≡ accept (is_accepted h) h (arrived c) =
            ap₂ (λ cmd k. frame_payload cmd k (content d.packet_buffer ++ arrived c))
              (cmd_of-with_size n c.header_buffer f) (resized-length c.packet_buffer n)
            ∙ ap (λ l. frame_payload (cmd_of c.header_buffer) n (l ++ arrived c))
                (resized-content c.packet_buffer n ps pw)
            ∙ ap (λ b. accept b h (arrived c)) (sym e) in
          subst
            (λ q. CutsTo (accept (is_accepted h) h (arrived c)) (and_on (on_valid q) take_payload))
            (sym (accepts c e))
            (subst (λ t. CutsTo t (take_payload d)) same (take_payload-CutsTo d reads))
      | inr e ↦
          let h = converted (read_bytes c.header_buffer header_length) in
          subst
            (λ q. CutsTo (accept (is_accepted h) h (arrived c)) (and_on (on_valid q) take_payload))
            (sym (refuses c e))
            (subst
              (λ b. CutsTo (accept b h (arrived c)) (
                done returns,
                close (record c { header_buffer = with_size h.size c.header_buffer }),
              ))
              (sym e) (refl, close_socket-closed c.socket))
    ]

module _ (c : ClientSocket) (packet header : MessageBuffer) (f : Framed c)
    (r : Received c.socket.read_buffer c.header_buffer packet header) where
  header_room :
      remaining_space header + moves c.socket.read_buffer c.header_buffer
      ≡ remaining_space c.header_buffer
  header_room = room_after r f.header_valid f.header_start

  header_bytes : length (content header) + remaining_space header ≡ 6
  header_bytes = omega (
    arith,
    length-content r.target_valid,
    remaining_space-valid r.target_valid,
    r.space,
    r.start,
    f.header_start,
    f.header_size,
  )

  -- The header buffer is full: it holds the first six bytes.
  header_whole-CutsTo :
      c.header_buffer.wpos < 6
      → remaining_space header ≡ 0
      → CutsTo
          (frame_header (content c.header_buffer ++ arrived c))
          (and_on (got_header (some (packet, header)) c) take_payload)
  header_whole-CutsTo l z =
      let d = with_header packet header c in
      let full : Full header = record {
        valid = r.target_valid;
        start = r.start ∙ f.header_start;
        size = r.space ∙ f.header_size;
        whole = omega (arith, remaining_space-valid r.target_valid, r.space, f.header_size);
      } in
      let six : 6 ≡ length (content header) = omega (arith, header_bytes) in
      let all = content header ++ content packet in
      let first : take 6 all ≡ read_bytes header header_length =
        take-append_eq 6 (content header) (content packet) six
        ∙ sym (take-all 6 (content header) (omega (arith, six)))
        ∙ sym (read_bytes-content header 6 (omega (arith, six, length-content r.target_valid))) in
      let second = drop-append_eq 6 (content header) (content packet) six in
      rw
        (got_header-whole packet header c z
          (omega (arith, six, active_size-content r.target_valid)))
        (subst
          (λ s. CutsTo (frame_header s) (and_on (on_valid (read_header_handler d)) take_payload))
          r.kept
          (subst (λ t. CutsTo t (and_on (on_valid (read_header_handler d)) take_payload))
            (sym (
              frame_header-whole all
                (omega (arith, six, length-append (content header) (content packet)))
              ∙ ap₂ (λ a b. accept (is_accepted (converted a)) (converted a) b) first second))
            (on_valid-CutsTo d r.packet_valid full f.packet_start (f.no_payload l))))

  header_short-CutsTo :
      0 < remaining_space header
      → 0 < remaining_space c.header_buffer
      → CutsTo
          (frame_header (content c.header_buffer ++ arrived c))
          (and_on (got_header (some (packet, header)) c) take_payload)
  header_short-CutsTo room h =
      let d = with_header packet header c in
      let none_left : active_size packet ≡ 0 = omega (arith, header_room, r.left) in
      let empty = empty_content r.packet_valid none_left in
      let all =
        sym (append-nil (content header)) ∙ ap (λ l. content header ++ l) (sym empty) ∙ r.kept in
      rw (got_header-breaks packet header c room none_left) (
        subst (λ s. CutsTo (frame_header s) (done breaks, d)) all
          (subst (λ t. CutsTo t (done breaks, d))
            (sym (frame_header-short (content header) (omega (arith, header_bytes))))
            (
              refl,
              partial_of-header d
                  (omega (arith, remaining_space-valid r.target_valid, r.space, f.header_size)),
              empty,
            )))

-- A round of `ReadHandler`, up to the handling of the packet, on well-formed buffers cuts what `frame`
-- cuts out of the bytes that it holds and those that have arrived. If they make no whole frame, all of
-- them are kept for the next read; if a header is refused, the socket is closed; else the packet
-- buffer has exactly the payload, the opcode is the frame's, and the bytes behind the frame are left.
pub cut-CutsTo : (c : ClientSocket) → Framed c → CutsTo (frame (partial_of c) (arrived c)) (cut c)
unfolding frame
cut-CutsTo c f = elim (dec_lt 0 (remaining_space c.header_buffer)) [
  | yes h ↦
      let l : c.header_buffer.wpos < 6 =
        omega (arith, remaining_space-valid f.header_valid, f.header_size) in
      let (packet, header, e, r) =
        receive-Received c.socket.read_buffer c.header_buffer f.read_valid f.header_valid in
      rw (partial_of-header c l, take_header-reads c h ∙ ap (λ o. got_header o c) e)
        (elim (dec_lt 0 (remaining_space header)) [
          | yes room ↦ header_short-CutsTo c packet header f r room h
          | no full ↦ header_whole-CutsTo c packet header f r l (omega arith)
        ])
  | no h ↦
      let six : c.header_buffer.wpos ≡ 6 =
        omega (arith, remaining_space-valid f.header_valid, f.header_size) in
      rw (partial_of-payload c six, take_header-full c (omega arith))
        (take_payload-CutsTo c (record {
          read_valid = f.read_valid;
          header_whole = six;
          packet_valid = f.packet_valid;
          packet_start = f.packet_start;
        }))
]
