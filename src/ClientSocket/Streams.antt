-- ===== src/ClientSocket/Streams.antt =====
-- src/client/Client/ClientSocket.cpp: rounds and reads after each other cut the frames of one stream.
mod Runs
use warhead_discord_client.Common.{
  ℕ, ◌+◌, ◌<◌, ◌≡◌, refl, sym, ap, ◌∙◌, subst, List, [], ◌++◌, arith, take,
}
use warhead_discord_client.MessageBuffer.{reset, read_bytes}
use warhead_discord_client.MessageBuffer.Laws.{content}
use warhead_discord_client.ByteBuffer.{of_message}
use warhead_discord_client.PacketHeader.{header_length, header_at}
use warhead_discord_client.ClientSocket.{
  ReadDataHandlerResult, ok, error, waiting_for_query, read_data_handler,
}
use warhead_discord_client.ClientSocket.State.{
  ClientSocket, Result, done, threw, out_of_range, assert_failed, undefined, chain,
}
use warhead_discord_client.ClientSocket.Loop.{
  Flow, goes_on, breaks, returns, take_payload, handled, handle_packet, and_on, round,
}
use warhead_discord_client.ClientSocket.Reading.{Framed}
use warhead_discord_client.ClientSocket.Handlers.{Fine, dispatch-Fine}
use warhead_discord_client.ClientSocket.Framing.{Ends, and_on-Ends, unread, Headed, Whole}
use warhead_discord_client.ClientSocket.Header.{take_header-Ends}
use warhead_discord_client.ClientSocket.Payload.{take_payload-Ends}
use warhead_discord_client.ClientSocket.Frames.{
  Partial, in_header, in_payload, Frame, incomplete, malformed, whole, frame, then_more,
  frame-append,
}
use warhead_discord_client.ClientSocket.Cutting.{cmd_of, partial_of, arrived, cut, CutsTo}
use warhead_discord_client.ClientSocket.CutFrames.{cut-CutsTo}

-- A cut that runs out of bytes has kept an incomplete frame.
kept_frame :
    (t : Frame) (q : Result Flow × ClientSocket)
    → CutsTo t q
    → q.0 ≡ done breaks
    → t ≡ incomplete (partial_of q.1)
kept_frame (incomplete p) (r, d) (e, g, h) b = ap incomplete (sym g)
kept_frame malformed (r, d) (e, g) b = absurd (let c : done breaks ≡ done returns = sym b ∙ e in cc)
kept_frame (whole cmd payload rest) (r, d) (e, g, s, l) b =
    absurd (let c : done breaks ≡ done goes_on = sym b ∙ e in cc)

-- A frame may come in any pieces. When a round ran out of bytes, and a later read finds the header
-- buffer and the packet buffer as that round left them, the next round cuts what one round would have
-- cut out of the bytes of both reads.
pub cut_resumed :
    (c e : ClientSocket)
    → Framed c
    → Framed e
    → (cut c).0 ≡ done breaks
    → partial_of e ≡ partial_of (cut c).1
    → CutsTo (frame (partial_of c) (arrived c ++ arrived e)) (cut e)
cut_resumed c e f g b same =
    let kept = kept_frame (frame (partial_of c) (arrived c)) (cut c) (cut-CutsTo c f) b in
    let t : frame (partial_of c) (arrived c ++ arrived e) ≡ frame (partial_of e) (arrived e) =
      frame-append (partial_of c) (arrived c) (arrived e)
      ∙ ap (λ t. then_more t (arrived e)) kept
      ∙ ap (λ p. frame p (arrived e)) (sym same) in
    subst (λ t. CutsTo t (cut e)) (sym t) (cut-CutsTo e g)

-- After a packet was handled, the next header is awaited, and no received byte is lost.
abbrev pub Awaits : List ℕ → Result Flow × ClientSocket → Type 0
Awaits rest (done goes_on, d) = (partial_of d ≡ in_header []) × (arrived d ≡ rest)
Awaits rest (done breaks, d) = ⊥
Awaits rest (done returns, d) = Unit {0}
Awaits rest (threw e, d) = Unit {0}
Awaits rest (out_of_range, d) = Unit {0}
Awaits rest (assert_failed, d) = ⊥
Awaits rest (undefined, d) = ⊥

handled-Awaits :
    (c d : ClientSocket) (r : Result ReadDataHandlerResult)
    → Fine c (r, d)
    → Awaits (arrived c) (chain r handled d)
unfolding reset
handled-Awaits c d (done ok) f = (refl, ap content f.same.read_buffer)
handled-Awaits c d (done error) f = tt
handled-Awaits c d (done waiting_for_query) f = tt
handled-Awaits c d (threw e) f = tt
handled-Awaits c d out_of_range f = tt
handled-Awaits c d assert_failed f = absurd f.safe
handled-Awaits c d undefined f = absurd f.safe

pub handle_packet-Awaits :
    (n now : ℕ) (c : ClientSocket) → Whole n c → Awaits (arrived c) (handle_packet now c)
unfolding handle_packet read_data_handler of_message
handle_packet-Awaits n now c w =
    handled-Awaits (record c { packet_buffer = record { wpos = 0; rpos = 0; storage = [] } }) _ _
      (dispatch-Fine now (header_at (read_bytes c.header_buffer header_length)).cmd
        (record { rpos = 0; wpos = 0; storage = c.packet_buffer.storage })
        (record c { packet_buffer = record { wpos = 0; rpos = 0; storage = [] } })
        (record { read_in = omega arith; write_in = omega arith; small = w.packet_valid.small }))

pub cut-Whole : (c : ClientSocket) → Framed c → 0 < unread c → Ends (Whole (unread c)) (cut c)
cut-Whole c f p =
    and_on-Ends (Headed (unread c)) (Whole (unread c)) _ _ take_payload (take_header-Ends c f p)
      (λ d k. take_payload-Ends (unread c) d k p)
