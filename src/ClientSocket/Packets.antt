-- ===== src/ClientSocket/Packets.antt =====
-- src/client/Client/ClientSocket.cpp: the packets that one call of `ReadHandler` hands to the packet handlers.
use warhead_discord_client.Common.{
  ℕ, zero, suc, ◌<◌, ◌≡◌, false, Option, none, some, List, [], ◌∷◌, ◌++◌, ltb, if◌then◌else◌, ◌⊎◌,
}
use warhead_discord_client.Socket.{Socket, is_open}
use warhead_discord_client.ClientSocket.State.{
  ClientSocket, Result, done, threw, out_of_range, assert_failed, undefined,
}
use warhead_discord_client.ClientSocket.Loop.{
  Flow, goes_on, breaks, returns, handle_packet, and_on, read_loop, after_round,
}
use warhead_discord_client.ClientSocket.Framing.{unread, Next}
use warhead_discord_client.ClientSocket.Frames.{
  Partial, in_header, Frame, incomplete, malformed, whole, frame,
}
use warhead_discord_client.ClientSocket.Cutting.{cmd_of, partial_of, arrived, cut}

-- An opcode and a payload.
abbrev pub Packet : Type 0
Packet = ℕ × List ℕ

abbrev pub on_frame : Frame → (List ℕ → List Packet × Option Partial) → List Packet × Option Partial
on_frame (incomplete p) k = ([], some p)
on_frame malformed k = ([], none)
on_frame (whole cmd payload rest) k = let (packets, p) = k rest in ((cmd, payload) ∷ packets, p)

-- All frames that bytes make, and what is left, or `none` at a refused header. A frame has at least one
-- byte, so that one more round than there are bytes is enough.
unfoldable pub cut_all : ℕ → Partial → List ℕ → List Packet × Option Partial
unfolding frame
cut_all zero p bytes = ([], some p)
cut_all (suc fuel) p bytes = on_frame (frame p bytes) (cut_all fuel (in_header []))

-- The packets that the loop of `ReadHandler` hands to the handlers, in order.
abbrev pub and_next : Result Flow × ClientSocket → (ClientSocket → List Packet) → List Packet
and_next (done goes_on, e) f = f e
and_next (done breaks, e) f = []
and_next (done returns, e) f = []
and_next (threw x, e) f = []
and_next (out_of_range, e) f = []
and_next (assert_failed, e) f = []
and_next (undefined, e) f = []

abbrev pub with_packet : ℕ → Result Flow × ClientSocket → (ClientSocket → List Packet) → List Packet
with_packet now (done goes_on, d) f =
    (cmd_of d.header_buffer, d.packet_buffer.storage) ∷ and_next (handle_packet now d) f
with_packet now (done breaks, d) f = []
with_packet now (done returns, d) f = []
with_packet now (threw x, d) f = []
with_packet now (out_of_range, d) f = []
with_packet now (assert_failed, d) f = []
with_packet now (undefined, d) f = []

unfoldable pub handed : ℕ → (ℕ → ℕ) → ℕ → ClientSocket → List Packet
handed zero clock k c = []
handed (suc fuel) clock k c =
    if ltb 0 (unread c) then with_packet (clock k) (cut c) (handed fuel clock (suc k)) else []

-- A call that ends early: the socket is not open, or an exception has left the handler.
abbrev pub Stopped : Result (Unit {0}) × ClientSocket → Type 0
Stopped (done u, d) = is_open d.socket ≡ false
Stopped (threw x, d) = Unit {0}
Stopped (out_of_range, d) = Unit {0}
Stopped (assert_failed, d) = ⊥
Stopped (undefined, d) = ⊥

abbrev pub IsPrefix : List Packet → List Packet → Type 0
IsPrefix xs ys = (more : List Packet) × (xs ++ more ≡ ys)

-- The packets that were handed over are those of the frames, up to where the call ended early; else they are
-- all of them, and the buffers hold what is left.
abbrev pub HandsOver :
    Result (Unit {0}) × ClientSocket → List Packet → List Packet × Option Partial → Type 0
HandsOver r packets frames =
    (Stopped r × IsPrefix packets frames.0) ⊎ (frames ≡ (packets, some (partial_of r.1)))

module _ (fuel : ℕ) (clock : ℕ → ℕ) (k n : ℕ)
    (rec : (e : ClientSocket)
      → Next n e
      → partial_of e ≡ in_header []
      → HandsOver
          (read_loop fuel clock (suc k) e)
          (handed fuel clock (suc k) e)
          (cut_all fuel (in_header []) (arrived e))) where
  abbrev Hands : Result Flow × ClientSocket → Frame → Type 0
  Hands q t =
      let r = and_on q (handle_packet (clock k)) in
      HandsOver (after_round r (read_loop fuel clock (suc k) r.1))
        (with_packet (clock k) q (handed fuel clock (suc k)))
        (on_frame t (cut_all fuel (in_header [])))

-- From a socket whose buffers are well formed, and that has something to read or begins with a new
-- header.
abbrev pub Begins : ClientSocket → Type 0
Begins c = (0 < unread c) ⊎ (partial_of c ≡ in_header [])
