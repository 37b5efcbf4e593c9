-- ===== src/ClientSocket/Rounds.antt =====
-- src/client/Client/ClientSocket.cpp: the rounds of `ReadHandler` keep the invariant of the buffers,
-- reach none of the assertions, and come to an end.
use warhead_discord_client.Common.{ℕ, zero, suc, ◌<◌, ◌≡◌, refl, ap, ◌∙◌, [], arith, length, dec_lt}
use warhead_discord_client.MessageBuffer.{MessageBuffer, active_size, read_bytes, reset}
use warhead_discord_client.ByteBuffer.{of_message}
use warhead_discord_client.PacketHeader.{header_length, header_at}
use warhead_discord_client.Socket.{async_read}
use warhead_discord_client.ClientSocket.{
  ReadDataHandlerResult, ok, error, waiting_for_query, read_data_handler,
}
use warhead_discord_client.ClientSocket.State.{
  ClientSocket, Result, done, threw, out_of_range, assert_failed, undefined, chain,
}
use warhead_discord_client.ClientSocket.Loop.{
  Flow, goes_on, breaks, returns, take_payload, handled, handle_packet, round, read_loop,
  read_handler, after_round,
}
use warhead_discord_client.ClientSocket.Reading.{Framed}
use warhead_discord_client.ClientSocket.Handlers.{
  Fine, Safe, Answers, dispatch-Fine, dispatch-Answers,
}
use warhead_discord_client.ClientSocket.Framing.{
  Ends, close_socket-closes, and_on-Ends, unread, Headed, Whole, Next,
}
use warhead_discord_client.ClientSocket.Header.{take_header-Ends}
use warhead_discord_client.ClientSocket.Payload.{take_payload-Ends}

-- The packet buffer after its storage went to a packet.
abbrev emptied : MessageBuffer
emptied = record { wpos = 0; rpos = 0; storage = [] }

handled-Ends :
    (n : ℕ) (r : Result ReadDataHandlerResult) (c d : ClientSocket)
    → Whole n c
    → c.packet_buffer ≡ emptied
    → Fine c (r, d)
    → Answers r
    → Ends (Next n) (chain r handled d)
unfolding reset
handled-Ends n (done ok) c d w e f a =
    let l : length d.header_buffer.storage ≡ 6 =
      ap (λ m. length m.storage) f.same.header_buffer ∙ w.header_full.size in
    let p : d.packet_buffer ≡ emptied = f.same.packet_buffer ∙ e in
    (
      record {
        read_valid = rw f.same.read_buffer w.read_valid;
        read_space = rw f.same.read_buffer w.read_space;
        header_valid = record {
          ordered = omega arith;
          within = omega arith;
          small = omega (arith, l);
        };
        header_start = refl;
        header_size = l;
        packet_valid =
            rw p (record { ordered = omega arith; within = omega arith; small = omega arith });
        packet_start = ap (λ m. m.rpos) p;
        no_payload = λ _. ap (λ m. m.wpos) p;
        awaits = λ z. absurd (omega (arith, z));
      },
      omega (arith, ap active_size f.same.read_buffer, w.progress),
    )
handled-Ends n (done error) c d w e f a = close_socket-closes d.socket
handled-Ends n (done waiting_for_query) c d w e f a = absurd a
handled-Ends n (threw x) c d w e f a = tt
handled-Ends n out_of_range c d w e f a = tt
handled-Ends n assert_failed c d w e f a = absurd f.safe
handled-Ends n undefined c d w e f a = absurd f.safe

pub handle_packet-Ends :
    (n now : ℕ) (c : ClientSocket) → Whole n c → Ends (Next n) (handle_packet now c)
unfolding handle_packet read_data_handler of_message
handle_packet-Ends n now c w =
    handled-Ends n _ (record c { packet_buffer = emptied }) _
      (record {
        read_valid = w.read_valid;
        read_space = w.read_space;
        header_full = w.header_full;
        packet_valid = record { ordered = omega arith; within = omega arith; small = omega arith };
        progress = w.progress;
      })
      refl
      (dispatch-Fine now (header_at (read_bytes c.header_buffer header_length)).cmd
        (record { rpos = 0; wpos = 0; storage = c.packet_buffer.storage })
        (record c { packet_buffer = emptied })
        (record { read_in = omega arith; write_in = omega arith; small = w.packet_valid.small }))
      (dispatch-Answers now (header_at (read_bytes c.header_buffer header_length)).cmd
        (record { rpos = 0; wpos = 0; storage = c.packet_buffer.storage })
        (record c { packet_buffer = emptied }))

pub round-Ends :
    (now : ℕ) (c : ClientSocket) → Framed c → 0 < unread c → Ends (Next (unread c)) (round now c)
unfolding round
round-Ends now c f p =
    let h = take_header-Ends c f p in
    let w =
      and_on-Ends (Headed (unread c)) (Whole (unread c)) _ _ take_payload h
        (λ d k. take_payload-Ends (unread c) d k p) in
    and_on-Ends (Whole (unread c)) (Next (unread c)) _ _ (handle_packet now) w
      (λ d k. handle_packet-Ends (unread c) now d k)

module _ (fuel : ℕ) (clock : ℕ → ℕ) (k : ℕ) (c : ClientSocket) where
  pub read_loop-rounds :
      0 < unread c
      → read_loop (suc fuel) clock k c
        ≡ after_round (round (clock k) c) (read_loop fuel clock (suc k) (round (clock k) c).1)
  unfolding read_loop
  read_loop-rounds h = ground arith

  pub read_loop-idle :
      unread c ≡ 0
      → read_loop (suc fuel) clock k c ≡ (done tt, record c { socket = async_read c.socket })
  unfolding read_loop
  read_loop-idle h = ground arith

after_round-Safe :
    (n : ℕ) (r : Result Flow) (d : ClientSocket) (rest : Result (Unit {0}) × ClientSocket)
    → Ends (Next n) (r, d)
    → (Next n d → Safe rest.0)
    → Safe (after_round (r, d) rest).0
after_round-Safe n (done goes_on) d rest e f = f e
after_round-Safe n (done breaks) d rest e f = tt
after_round-Safe n (done returns) d rest e f = tt
after_round-Safe n (threw x) d rest e f = tt
after_round-Safe n out_of_range d rest e f = tt
after_round-Safe n assert_failed d rest e f = absurd e
after_round-Safe n undefined d rest e f = absurd e

read_loop-Safe :
    (fuel : ℕ) (clock : ℕ → ℕ) (k : ℕ) (c : ClientSocket)
    → Framed c
    → Safe (read_loop fuel clock k c).0
read_loop-Safe zero clock k c f = unfold read_loop in tt
read_loop-Safe (suc fuel) clock k c f = elim (dec_lt 0 (unread c)) [
  | yes h ↦ rw (read_loop-rounds fuel clock k c h) (
      after_round-Safe (unread c) _ _ _ (round-Ends (clock k) c f h)
        (λ next. read_loop-Safe fuel clock (suc k) (round (clock k) c).1 next.0))
  | no h ↦ rw (read_loop-idle fuel clock k c (omega arith)) tt
]

-- Whatever bytes arrive and however they are cut, `ReadHandler` from well-formed buffers reaches none
-- of its assertions and no access outside a storage: it completes, or an exception of a malformed
-- packet leaves it.
read_handler-Safe : (clock : ℕ → ℕ) (c : ClientSocket) → Framed c → Safe (read_handler clock c).0
unfolding read_handler
read_handler-Safe clock c f = read_loop-Safe (suc (active_size c.socket.read_buffer)) clock 0 c f
