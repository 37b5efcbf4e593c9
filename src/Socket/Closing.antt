-- ===== src/Socket/Closing.antt =====
-- src/shared/Network/Socket.h: how a socket closes, and that its loop over the write queue ends.
use warhead_discord_client.Common.{
  ℕ, zero, suc, ◌-◌, ◌≤◌, ◌≡◌, Bool, true, false, List, [], ◌∷◌, inl, inr, arith, length,
  Bool-cases,
}
use warhead_discord_client.MessageBuffer.{MessageBuffer}
use warhead_discord_client.Socket.{
  Socket, Answer, would_block, failed, room, queue_packet, close_socket, delayed_close_socket,
  async_read, async_process_queue, pop_front, send_front, handle_queue, write_handler_wrapper,
  drain, update, on_queue,
}
use warhead_discord_client.Socket.Events.{
  Event, queues, updates, writes, closes, closes_later, reads, step, run,
}
use warhead_discord_client.Socket.Stream.{drain_again, drain_stops, update-cases}

abbrev pub count : Bool → ℕ
count true = 1
count false = 0

-- `OnClose` ran once if the socket is closed and else never, and the operating system owes a write
-- handler exactly while `_isWritingAsync` is set.
pub record Counted (s : Socket) : Type 0 where
  pub calls : s.on_close_calls ≡ count s.closed
  pub waiting : s.waits ≡ count s.is_writing_async

count_le : (b : Bool) → count b ≤ 1
count_le true = omega arith
count_le false = omega arith

close_socket-Counted : (s : Socket) → Counted s → Counted (close_socket s)
unfolding close_socket
close_socket-Counted s v =
    let c = v.calls in let w = v.waiting in record { calls = ground arith; waiting = ground arith }

async_process_queue-Counted : (s : Socket) → Counted s → Counted (async_process_queue s).1
unfolding async_process_queue
async_process_queue-Counted s v =
    let c = v.calls in let w = v.waiting in record { calls = ground arith; waiting = ground arith }

pop_front-Counted :
    (rest : List MessageBuffer) (s : Socket) → Counted s → Counted (pop_front rest s)
unfolding pop_front close_socket
pop_front-Counted rest s v =
    let c = v.calls in let w = v.waiting in record { calls = ground arith; waiting = ground arith }

send_front-Counted :
    (a : Answer) (m : MessageBuffer) (rest : List MessageBuffer) (s : Socket)
    → Counted s
    → Counted (send_front a m rest s).1
unfolding send_front pop_front close_socket async_process_queue
send_front-Counted would_block m rest s v = async_process_queue-Counted s v
send_front-Counted failed m rest s v = pop_front-Counted rest s v
send_front-Counted (room n) m rest s v =
    let c = v.calls in let w = v.waiting in record { calls = ground arith; waiting = ground arith }

on_queue-Counted :
    (a : Answer) (q : List MessageBuffer) (s : Socket) → Counted s → Counted (on_queue a q s).1
on_queue-Counted a [] s v = v
on_queue-Counted a (m ∷ rest) s v = send_front-Counted a m rest s v

handle_queue-Counted : (a : Answer) (s : Socket) → Counted s → Counted (handle_queue a s).1
unfolding handle_queue
handle_queue-Counted a s v = on_queue-Counted a s.write_queue s v

drain-Counted :
    (fuel : ℕ) (answers : ℕ → Answer) (k : ℕ) (s : Socket)
    → Counted s
    → Counted (drain fuel answers k s).1
drain-Counted zero answers k s v = unfold drain in v
drain-Counted (suc fuel) answers k s v =
    let p : Counted (handle_queue (answers k) s).1 = handle_queue-Counted (answers k) s v in
    elim (Bool-cases (handle_queue (answers k) s).0) [
      | inl e ↦
          rw (drain_again fuel answers k s e)
            (drain-Counted fuel answers (suc k) (handle_queue (answers k) s).1 p)
      | inr e ↦ rw (drain_stops fuel answers k s e) p
    ]

update-Counted : (answers : ℕ → Answer) (s : Socket) → Counted s → Counted (update answers s).1
update-Counted answers s v = elim (update-cases answers s) [
  | inl e ↦ rw e v
  | inr e ↦ rw e (drain-Counted (suc (length s.write_queue)) answers 0 s v)
]

async_read-Counted : (s : Socket) → Counted s → Counted (async_read s)
unfolding async_read
async_read-Counted s v =
    let c = v.calls in let w = v.waiting in record { calls = ground arith; waiting = ground arith }

step-Counted : (e : Event) (s : Socket) → Counted s → Counted (step e s)
unfolding step
step-Counted (queues m) s v = unfold queue_packet in record { calls = v.calls; waiting = v.waiting }
step-Counted (updates answers) s v = update-Counted answers s v
step-Counted (writes a) s v =
    unfold write_handler_wrapper in
    handle_queue-Counted a (record s { is_writing_async = false; waits = s.waits - 1 })
      (let w = v.waiting in
        record { calls = v.calls; waiting = let b = count_le s.is_writing_async in omega arith })
step-Counted closes s v = close_socket-Counted s v
step-Counted closes_later s v =
    unfold delayed_close_socket in record { calls = v.calls; waiting = v.waiting }
step-Counted reads s v = async_read-Counted s v

-- Whatever happens to a socket, `OnClose` has run exactly once when it is closed and never when it
-- is not, and the operating system owes one write handler while `_isWritingAsync` is set and none
-- else.
pub run-Counted : (es : List Event) (s : Socket) → Counted s → Counted (run es s)
unfolding run
run-Counted [] s v = v
run-Counted (e ∷ es) s v = run-Counted es (step e s) (step-Counted e s v)
