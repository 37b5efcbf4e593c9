-- ===== src/Socket/History.antt =====
-- src/shared/Network/Socket.h: the bytes of a whole history of a socket.
use warhead_discord_client.Common.{
  ℕ, ◌-◌, ◌≡◌, refl, sym, ap, ◌∙◌, false, List, [], ◌∷◌, ◌++◌, append_assoc, append-nil, arith, All,
}
use warhead_discord_client.MessageBuffer.{MessageBuffer}
use warhead_discord_client.MessageBuffer.Laws.{content}
use warhead_discord_client.MessageBuffer.Laws
use warhead_discord_client.Socket.{
  Socket, queue_packet, close_socket, delayed_close_socket, async_read, write_handler_wrapper,
}
use warhead_discord_client.Socket.Events.{
  Event, queues, updates, writes, closes, closes_later, reads, step, run,
}
use warhead_discord_client.Socket.Stream.{
  waiting, waiting-append, stream, QueueIsValid, Takes, Kept, carries, handle_queue-Kept,
  update-Kept,
}

-- Messages are well formed, and no write fails or finds no room.
abbrev pub Lossless : Event → Type 0
Lossless (queues m) = Laws.IsValid m
Lossless (updates answers) = (i : ℕ) → Takes (answers i)
Lossless (writes a) = Takes a
Lossless closes = Unit {0}
Lossless closes_later = Unit {0}
Lossless reads = Unit {0}

-- The bytes that the client queues in a history.
abbrev pub queued : List Event → List ℕ
queued [] = []
queued (queues m ∷ es) = content m ++ queued es
queued (updates answers ∷ es) = queued es
queued (writes a ∷ es) = queued es
queued (closes ∷ es) = queued es
queued (closes_later ∷ es) = queued es
queued (reads ∷ es) = queued es

close_socket-fields :
    (s : Socket) → ((close_socket s).sent ≡ s.sent) × ((close_socket s).write_queue ≡ s.write_queue)
unfolding close_socket
close_socket-fields s = ground arith

async_read-fields :
    (s : Socket) → ((async_read s).sent ≡ s.sent) × ((async_read s).write_queue ≡ s.write_queue)
unfolding async_read
async_read-fields s = ground arith

regroup : (s w c q : List ℕ) → (s ++ (w ++ c)) ++ q ≡ (s ++ w) ++ (c ++ q)
regroup s w c q = ap (λ l. l ++ q) (sym (append_assoc s w c)) ∙ append_assoc (s ++ w) c q

pub All-snoc :
    (q : List MessageBuffer) (m : MessageBuffer)
    → All Laws.IsValid q
    → Laws.IsValid m
    → All Laws.IsValid (q ++ (m ∷ []))
All-snoc [] m v h = (h, tt)
All-snoc (x ∷ q) m v h = (v.0, All-snoc q m v.1 h)

carried :
    (es : List Event) {s s' : Socket}
    → Kept s s'
    → (stream s' ++ queued es ≡ stream s ++ queued es) × QueueIsValid s'
carried es k = (ap (λ l. l ++ queued es) k.same, k.valid)

step-Kept :
    (e : Event) (es : List Event) (s : Socket)
    → Lossless e
    → QueueIsValid s
    → (stream (step e s) ++ queued es ≡ stream s ++ queued (e ∷ es)) × QueueIsValid (step e s)
step-Kept (queues m) es s h v =
    unfold step queue_packet in
    (
      ap (λ w. (s.sent ++ w) ++ queued es)
            (waiting-append s.write_queue (m ∷ [])
              ∙ ap (λ c. waiting s.write_queue ++ c) (append-nil (content m)))
          ∙ regroup s.sent (waiting s.write_queue) (content m) (queued es),
      All-snoc s.write_queue m v h,
    )
step-Kept (updates answers) es s h v = unfold step in carried es (update-Kept answers s h v)
step-Kept (writes a) es s h v =
    unfold step write_handler_wrapper in
    carried es
      (handle_queue-Kept a (record s { is_writing_async = false; waits = s.waits - 1 }) h v)
step-Kept closes es s h v =
    let f = close_socket-fields s in
    unfold step in carried es (carries s (close_socket s) s.sent s.write_queue f.0 f.1 refl v)
step-Kept closes_later es s h v = unfold step delayed_close_socket in (refl, v)
step-Kept reads es s h v =
    let f = async_read-fields s in
    unfold step in carried es (carries s (async_read s) s.sent s.write_queue f.0 f.1 refl v)

-- In any history without failed writes the bytes that have gone out, followed by those that wait,
-- are the bytes that were there at first and then those that were queued: none is lost, repeated or
-- moved, however the operating system cuts the writes.
pub run-stream :
    (es : List Event) (s : Socket)
    → All Lossless es
    → QueueIsValid s
    → stream (run es s) ≡ stream s ++ queued es
unfolding run
run-stream [] s h v = sym (append-nil (stream s))
run-stream (e ∷ es) s (he, hs) v =
    let k = step-Kept e es s he v in run-stream es (step e s) hs k.1 ∙ k.0
