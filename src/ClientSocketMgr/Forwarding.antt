-- ===== src/ClientSocketMgr/Forwarding.antt =====
-- src/client/Client/ClientSocketMgr.cpp: the packets that reach the client's queue.
use warhead_discord_client.Common.{
  ℕ, ◌≡◌, refl, sym, ap, ◌∙◌, true, false, some, List, [], ◌∷◌, ◌++◌, append_assoc, append-nil,
  if◌then◌else◌,
}
use warhead_discord_client.Socket.{Answer}
use warhead_discord_client.ClientSocket.State.{DiscordPacket, ClientSocket, done}
use warhead_discord_client.ClientSocket.Loop
use warhead_discord_client.ClientSocketMgr.{
  ClientSocketMgr, updates, later, forward_all, send_packet, hand_over, update, after_client,
  on_client,
}

-- The client with more packets in its queue.
abbrev pub with_packets : List DiscordPacket → ClientSocket → ClientSocket
with_packets ps c = record c { buffer_queue = c.buffer_queue ++ ps }

forward_all-some :
    (ps : List DiscordPacket) (c : ClientSocket) (m : ClientSocketMgr)
    → m.client_socket ≡ some c
    → forward_all ps m ≡ record m { client_socket = some (with_packets ps c); buffer_queue = [] }
unfolding forward_all send_packet Loop.add_packet_to_queue
forward_all-some [] c m e =
    ap (λ o. record m { client_socket = o; buffer_queue = [] })
      (e ∙ ap (λ q. some (record c { buffer_queue = q })) (sym (append-nil c.buffer_queue)))
forward_all-some (p ∷ ps) c m e =
    forward_all-some ps (with_packets (p ∷ []) c) (send_packet p m) (ap (hand_over p) e)
    ∙ ap (λ q. record m { client_socket = some (record c { buffer_queue = q }); buffer_queue = [] })
        (append_assoc c.buffer_queue (p ∷ []) ps)

-- An update of a manager that is not stopped and whose client's update returns alive hands every
-- packet that waits to the client, in order behind those it has, and leaves none; it also leaves the
-- next update with the timer.
pub update-forwards :
    (answers : ℕ → Answer) (c c' : ClientSocket) (m : ClientSocketMgr)
    → m.stopped ≡ false
    → m.client_socket ≡ some c
    → Loop.update answers c ≡ (done true, c')
    → update answers m ≡ (
      true,
      record m {
        owed = m.owed ++ (updates ∷ []);
        client_socket = some (with_packets m.buffer_queue c');
        buffer_queue = [];
      },
    )
unfolding update
update-forwards answers c c' m s e u =
    ap (λ b. if b then (true, m) else on_client answers m.client_socket (later updates m)) s
    ∙ ap (λ o. on_client answers o (later updates m)) e
    ∙ ap (λ r. after_client r (later updates m)) u
    ∙ ap (λ n. (true, n))
        (forward_all-some m.buffer_queue c' (record (later updates m) { client_socket = some c' })
          refl)
