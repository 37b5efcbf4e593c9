-- ===== src/ClientSocket/Handlers.antt =====
-- src/client/Client/ClientSocket.cpp: the packet handlers never reach an assertion or an access
-- outside a storage, and leave the buffers of `ReadHandler` alone.
use warhead_discord_client.Common.{ℕ, ◌^◌, ◌<◌, ◌≡◌, refl, ap, true, ◌++◌, inl, inr, ◌⊎◌, arith}
use warhead_discord_client.Common.Bytes.{le_bytes, sub64}
use warhead_discord_client.ByteBuffer.{empty_buffer, size, append_uint, read_uint, append}
use warhead_discord_client.ByteBuffer.State.{ByteBuffer, Outcome, ◌>>◌}
use warhead_discord_client.ByteBuffer.Store.{IsValid}
use warhead_discord_client.ByteBuffer.Bounds.{reads-Guarded, refused, passed}
use warhead_discord_client.Socket.{close_socket}
use warhead_discord_client.ClientSocket.{
  send_packet, on_socket, send_written, send_ping_message, client_send_ping, disconnect,
  on_auth_code, handle_auth_responce, handle_pong, dispatch, to_result, then_ok,
  ReadDataHandlerResult, ok, error, waiting_for_query,
}
use warhead_discord_client.ClientSocket.State.{
  DiscordPacket, ClientSocket, Result, done, threw, out_of_range, assert_failed, undefined, Handler,
  chain,
}
use warhead_discord_client.ClientSocket.Sending.{send_packet-read_buffer}
use warhead_discord_client.ClientSocket.Reading.{SameBuffers}

-- A result that is a value or an exception.
abbrev pub Safe : {A : Type 0} → Result A → Type 0
Safe (done a) = Unit {0}
Safe (threw e) = Unit {0}
Safe out_of_range = Unit {0}
Safe assert_failed = ⊥
Safe undefined = ⊥

-- A handler's result is safe, and the buffers are those of before.
pub record Fine {A : Type 0} (c : ClientSocket) (r : Result A × ClientSocket) : Type 0 where
  pub safe : Safe r.0
  pub same : SameBuffers c r.1

stays : {A : Type 0} (c : ClientSocket) (a : A) → Fine c (done a, c)
stays c a = record {
  safe = tt;
  same = record { read_buffer = refl; header_buffer = refl; packet_buffer = refl };
}

ping_written :
    (now latency : ℕ)
    → (b : ByteBuffer) × ((do append_uint 8 now; append_uint 8 latency) empty_buffer
        ≡ (Outcome.ok tt, b))
      × (size b ≡ 16)
unfolding append_uint append le_bytes
ping_written now latency =
    (record { rpos = 0; wpos = 16; storage = le_bytes 8 now ++ le_bytes 8 latency }, refl, refl)

on_socket-Fine :
    (p : DiscordPacket) (c : ClientSocket)
    → size p.payload < 2 ^ 31
    → Fine c (on_socket (send_packet p c.socket) c)
on_socket-Fine p c b =
    let (s, e, r) = send_packet-read_buffer p c.socket b in
    rw e (record {
      safe = tt;
      same = record { read_buffer = r; header_buffer = refl; packet_buffer = refl };
    })

send_ping_message-sends :
    (now : ℕ) (c : ClientSocket) (b : ByteBuffer)
    → (do append_uint 8 now; append_uint 8 c.latency) empty_buffer ≡ (Outcome.ok tt, b)
    → send_ping_message now c
      ≡ on_socket (send_packet (record { opcode = client_send_ping; payload = b }) c.socket) c
unfolding send_ping_message
send_ping_message-sends now c b e = ap (λ r. send_written client_send_ping r c) e

send_ping_message-Fine : (now : ℕ) (c : ClientSocket) → Fine c (send_ping_message now c)
send_ping_message-Fine now c =
    let (b, e, l) = ping_written now c.latency in
    rw (send_ping_message-sends now c b e)
      (on_socket-Fine (record { opcode = client_send_ping; payload = b }) c (omega arith))

disconnect-Fine : {A : Type 0} (a : A) (c : ClientSocket) → Fine c (done a, disconnect c)
unfolding disconnect close_socket
disconnect-Fine a c = record {
  safe = tt;
  same = record { read_buffer = ground arith; header_buffer = refl; packet_buffer = refl };
}

on_auth_code-cases :
    (now code : ℕ) (c : ClientSocket)
    → (on_auth_code now code c ≡ (out_of_range, c))
      ⊎ (on_auth_code now code c ≡ send_ping_message now (record c { authed = true }))
      ⊎ (on_auth_code now code c ≡ (done tt, disconnect c))
unfolding on_auth_code
on_auth_code-cases now code c = ground arith

on_auth_code-Fine : (now code : ℕ) (c : ClientSocket) → Fine c (on_auth_code now code c)
on_auth_code-Fine now code c = elim (on_auth_code-cases now code c) [
  | inl e ↦ rw e (record { safe = tt; same = (stays c tt).same })
  | inr (inl e) ↦
      let f = send_ping_message-Fine now (record c { authed = true }) in
      rw e (record {
        safe = f.safe;
        same = record {
          read_buffer = f.same.read_buffer;
          header_buffer = f.same.header_buffer;
          packet_buffer = f.same.packet_buffer;
        };
      })
  | inr (inr e) ↦ rw e (disconnect-Fine tt c)
]

read_uint-Fine :
    (w : ℕ) (packet : ByteBuffer) (k : ℕ → Handler (Unit {0})) (c : ClientSocket)
    → IsValid packet
    → w < 2 ^ 62
    → ((a : ℕ) → Fine c (k a c))
    → Fine c (chain (to_result (read_uint w packet).0) k c)
read_uint-Fine w packet k c v h f = elim (reads-Guarded w packet v h).0 [
  | refused l e ↦ rw e (record { safe = tt; same = (stays c tt).same })
  | passed a l e ↦ rw e (f a)
]

handle_auth_responce-Fine :
    (now : ℕ) (packet : ByteBuffer) (c : ClientSocket)
    → IsValid packet
    → Fine c (handle_auth_responce now packet c)
unfolding handle_auth_responce
handle_auth_responce-Fine now packet c v =
    read_uint-Fine 1 packet (on_auth_code now) c v (omega arith)
      (λ code. on_auth_code-Fine now code c)

handle_pong-Fine :
    (now : ℕ) (packet : ByteBuffer) (c : ClientSocket)
    → IsValid packet
    → Fine c (handle_pong now packet c)
unfolding handle_pong
handle_pong-Fine now packet c v =
    read_uint-Fine 8 packet (λ t d. (done tt, record d { latency = sub64 now t })) c v (omega arith)
      (λ t. record {
        safe = tt;
        same = record { read_buffer = refl; header_buffer = refl; packet_buffer = refl };
      })

then_ok-Fine :
    (c : ClientSocket) (r : Result (Unit {0})) (d : ClientSocket)
    → Fine c (r, d)
    → Fine c (then_ok (r, d))
then_ok-Fine c (done u) d f = record { safe = tt; same = f.same }
then_ok-Fine c (threw e) d f = record { safe = tt; same = f.same }
then_ok-Fine c out_of_range d f = record { safe = tt; same = f.same }
then_ok-Fine c assert_failed d f = absurd f.safe
then_ok-Fine c undefined d f = absurd f.safe

dispatch-cases :
    (now opcode : ℕ) (packet : ByteBuffer) (c : ClientSocket)
    → (dispatch now opcode packet c ≡ (done error, disconnect c))
      ⊎ (dispatch now opcode packet c ≡ (done error, c))
      ⊎ (dispatch now opcode packet c ≡ then_ok (handle_auth_responce now packet c))
      ⊎ (dispatch now opcode packet c ≡ then_ok (handle_pong now packet c))
unfolding dispatch
dispatch-cases now opcode packet c = ground arith

pub dispatch-Fine :
    (now opcode : ℕ) (packet : ByteBuffer) (c : ClientSocket)
    → IsValid packet
    → Fine c (dispatch now opcode packet c)
dispatch-Fine now opcode packet c v = elim (dispatch-cases now opcode packet c) [
  | inl e ↦ rw e (disconnect-Fine error c)
  | inr (inl e) ↦ rw e (stays c error)
  | inr (inr (inl e)) ↦ rw e (then_ok-Fine c _ _ (handle_auth_responce-Fine now packet c v))
  | inr (inr (inr e)) ↦ rw e (then_ok-Fine c _ _ (handle_pong-Fine now packet c v))
]

-- The handlers never ask to wait for a query.
abbrev pub Answers : Result ReadDataHandlerResult → Type 0
Answers (done ok) = Unit {0}
Answers (done error) = Unit {0}
Answers (done waiting_for_query) = ⊥
Answers (threw e) = Unit {0}
Answers out_of_range = Unit {0}
Answers assert_failed = Unit {0}
Answers undefined = Unit {0}

then_ok-Answers : (r : Result (Unit {0})) (c : ClientSocket) → Answers (then_ok (r, c)).0
then_ok-Answers (done u) c = tt
then_ok-Answers (threw e) c = tt
then_ok-Answers out_of_range c = tt
then_ok-Answers assert_failed c = tt
then_ok-Answers undefined c = tt

pub dispatch-Answers :
    (now opcode : ℕ) (packet : ByteBuffer) (c : ClientSocket)
    → Answers (dispatch now opcode packet c).0
dispatch-Answers now opcode packet c = elim (dispatch-cases now opcode packet c) [
  | inl e ↦ rw e tt
  | inr (inl e) ↦ rw e tt
  | inr (inr (inl e)) ↦ rw e (then_ok-Answers _ _)
  | inr (inr (inr e)) ↦ rw e (then_ok-Answers _ _)
]
