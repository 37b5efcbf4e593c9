-- ===== src/Socket/Runs.antt =====
-- Concrete histories of a socket, and its theorems at concrete inputs.
use warhead_discord_client.Common.{◌≡◌, refl, true, List, [], ◌∷◌, ◌++◌, arith}
use warhead_discord_client.MessageBuffer.{MessageBuffer, active_size, read_completed, read_bytes}
use warhead_discord_client.MessageBuffer.Laws.{content}
use warhead_discord_client.MessageBuffer.Laws
use warhead_discord_client.Socket.{
  Socket, write_handler_wrapper, room, opened, queue_packet, drain, update, delayed_close_socket,
}
use warhead_discord_client.Socket.Events.{
  Event, queues, updates, writes, closes, closes_later, step, run,
}
use warhead_discord_client.Socket.Stream.{stream}
use warhead_discord_client.Socket.History.{run-stream, queued}
use warhead_discord_client.Socket.Closing.{Counted, run-Counted}
use warhead_discord_client.Socket.Draining.{drain_ends, Flushed, update-Flushed}

abbrev three : MessageBuffer
three = record { wpos = 3; rpos = 0; storage = 1 ∷ 2 ∷ 3 ∷ [] }

abbrev one : MessageBuffer
one = record { wpos = 2; rpos = 1; storage = 7 ∷ 4 ∷ [] }

abbrev history : List Event
history = queues three ∷ queues one ∷ updates (λ i. room 2) ∷ writes (room 8) ∷ closes_later ∷ []

-- The first write takes two bytes of three and the second the rest of the message.
history_sent : (run history opened).sent ≡ 1 ∷ 2 ∷ 3 ∷ []
unfolding run step delayed_close_socket write_handler_wrapper update queue_packet opened active_size
    read_completed read_bytes
history_sent = refl

three-IsValid : Laws.IsValid three
three-IsValid = record { ordered = omega arith; within = omega arith; small = omega arith }

one-IsValid : Laws.IsValid one
one-IsValid = record { ordered = omega arith; within = omega arith; small = omega arith }

run-stream_example : stream (run history opened) ≡ stream opened ++ queued history
run-stream_example =
    run-stream history opened
      (three-IsValid, (one-IsValid, ((λ i. omega arith), (omega arith, (tt, tt)))))
      (unfold opened in tt)

run-Counted_example : Counted (run (closes ∷ closes ∷ history) opened)
unfolding opened
run-Counted_example =
    run-Counted (closes ∷ closes ∷ history) opened (record { calls = refl; waiting = refl })

abbrev loaded : Socket
loaded = record opened { write_queue = three ∷ one ∷ []; closing = true }

drain_ends_example :
    ((drain 3 (λ i. room 9) 0 loaded).0 ≡ true)
    × (drain 3 (λ i. room 9) 0 loaded ≡ drain 7 (λ i. room 9) 0 loaded)
unfolding opened
drain_ends_example = drain_ends 3 7 (λ i. room 9) 0 loaded (omega arith) (omega arith)

update-Flushed_example : Flushed loaded (update (λ i. room 3) loaded).1
unfolding active_size opened
update-Flushed_example =
    update-Flushed 3 three (one ∷ []) loaded refl
      ((three-IsValid, omega arith, omega arith), ((one-IsValid, omega arith, omega arith), tt))
      refl refl refl
