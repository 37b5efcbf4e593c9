-- ===== src/Socket/Draining.antt =====
-- src/shared/Network/Socket.h: the loop `for (; HandleQueue();)` of `Update`.
use warhead_discord_client.Common.{
  ℕ, zero, suc, ◌≤◌, ◌<◌, ◌≡◌, refl, sym, ap, ◌∙◌, min, true, false, List, [], ◌∷◌, ◌++◌,
  append_assoc, append-nil, inl, inr, arith, length, map, not, Bool-cases, All,
}
use warhead_discord_client.MessageBuffer.{MessageBuffer, active_size, read_bytes}
use warhead_discord_client.MessageBuffer.Laws.{content}
use warhead_discord_client.MessageBuffer.Laws
use warhead_discord_client.Socket.{
  delayed_close_socket, Socket, Answer, would_block, failed, room, close_socket,
  async_process_queue, pop_front, send_front, handle_queue, drain, update, on_queue, is_nil,
}
use warhead_discord_client.Socket.Stream.{
  waiting, took_all, drain_again, drain_stops, pop_front-fields, update-cases,
}
use warhead_discord_client.Socket.Events.{Event, updates, run, step}

pop_front-write_queue :
    (rest : List MessageBuffer) (s : Socket) → (pop_front rest s).write_queue ≡ rest
pop_front-write_queue rest s = (pop_front-fields rest s).1

async_process_queue-stops : (s : Socket) → (async_process_queue s).0 ≡ false
unfolding async_process_queue
async_process_queue-stops s = ground arith

-- A round that goes on has popped the first message.
send_front-shrinks :
    (a : Answer) (m : MessageBuffer) (rest : List MessageBuffer) (s : Socket)
    → (send_front a m rest s).0 ≡ true
    → (send_front a m rest s).1.write_queue ≡ rest
unfolding send_front pop_front close_socket async_process_queue
send_front-shrinks would_block m rest s e = ground arith
send_front-shrinks failed m rest s e = ground arith
send_front-shrinks (room n) m rest s e = ground arith

on_queue-shrinks :
    (a : Answer) (q : List MessageBuffer) (s : Socket)
    → (on_queue a q s).0 ≡ true
    → length (on_queue a q s).1.write_queue < length q
on_queue-shrinks a [] s e = ground arith
on_queue-shrinks a (m ∷ rest) s e = rw (send_front-shrinks a m rest s e) (omega arith)

handle_queue-shrinks :
    (a : Answer) (s : Socket)
    → (handle_queue a s).0 ≡ true
    → length (handle_queue a s).1.write_queue < length s.write_queue
unfolding handle_queue
handle_queue-shrinks a s e = on_queue-shrinks a s.write_queue s e

-- The loop of `Update` ends within as many rounds as there are messages, one more included, whatever the
-- operating system answers: with that fuel or any larger one it ends by its own test, never for want
-- of fuel, and gives the same socket.
pub drain_ends :
    (f g : ℕ) (answers : ℕ → Answer) (k : ℕ) (s : Socket)
    → length s.write_queue < f
    → length s.write_queue < g
    → ((drain f answers k s).0 ≡ true) × (drain f answers k s ≡ drain g answers k s)
drain_ends zero g answers k s hf hg = ground arith
drain_ends (suc f) zero answers k s hf hg = ground arith
drain_ends (suc f) (suc g) answers k s hf hg = elim (Bool-cases (handle_queue (answers k) s).0) [
  | inl e ↦
      let h = handle_queue-shrinks (answers k) s e in
      let rest =
        drain_ends f g answers (suc k) (handle_queue (answers k) s).1 (omega arith) (omega arith) in
      let goes_on = drain_again f answers k s e in
      (ap (λ r. r.0) goes_on ∙ rest.0, goes_on ∙ rest.1 ∙ sym (drain_again g answers k s e))
  | inr e ↦
      let stops = drain_stops f answers k s e in
      (ap (λ r. r.0) stops, stops ∙ sym (drain_stops g answers k s e))
]

handle_queue-on :
    (a : Answer) (q : List MessageBuffer) (s : Socket)
    → s.write_queue ≡ q
    → handle_queue a s ≡ on_queue a q s
unfolding handle_queue
handle_queue-on a q s e = ap (λ w. on_queue a w s) e

handle_queue-empty : (a : Answer) (s : Socket) → s.write_queue ≡ [] → handle_queue a s ≡ (false, s)
handle_queue-empty a s e = handle_queue-on a [] s e

update_empty : (answers : ℕ → Answer) (s : Socket) → s.write_queue ≡ [] → (update answers s).1 ≡ s
update_empty answers s e = elim (update-cases answers s) [
  | inl h ↦ h
  | inr h ↦
      let stops = handle_queue-empty (answers 0) s e in
      h
      ∙ ap (λ r. r.1) (drain_stops (length s.write_queue) answers 0 s (ap (λ r. r.0) stops))
      ∙ ap (λ r. r.1) stops
]

run_nil : (s : Socket) → run [] s ≡ s
unfolding run
run_nil s = refl

run_updates :
    (a : ℕ → Answer) (es : List Event) (s : Socket) → run (updates a ∷ es) s ≡ run es (update a s).1
unfolding run step
run_updates a es s = refl

delayed_close-queue : (s : Socket) → (delayed_close_socket s).write_queue ≡ s.write_queue
unfolding delayed_close_socket
delayed_close-queue s = refl

-- A socket that is marked for closing when its queue has already run empty is not closed by any
-- number of updates, whatever the operating system answers: it stays as it is.
delayed_close-stuck :
    (rounds : List (ℕ → Answer)) (s : Socket)
    → s.write_queue ≡ []
    → run (map updates rounds) (delayed_close_socket s) ≡ delayed_close_socket s
delayed_close-stuck [] s e = run_nil (delayed_close_socket s)
delayed_close-stuck (a ∷ rounds) s e =
    run_updates a (map updates rounds) (delayed_close_socket s)
    ∙ ap (run (map updates rounds))
        (update_empty a (delayed_close_socket s) (delayed_close-queue s ∙ e))
    ∙ delayed_close-stuck rounds s e

-- What a full write does to the first message.
module _ (limit : ℕ) (m : MessageBuffer) (s : Socket) where
  abbrev sending : Socket
  sending = record s { sent = s.sent ++ read_bytes m (min limit (active_size m)) }

  send_full :
      (rest : List MessageBuffer)
      → 0 < active_size m
      → active_size m ≤ limit
      → send_front (room limit) m rest s ≡ (not (is_nil rest), pop_front rest sending)
  unfolding send_front
  send_full rest p h = ground arith

pop_front-next :
    (x : MessageBuffer) (rest : List MessageBuffer) (s : Socket)
    → pop_front (x ∷ rest) s ≡ record s { write_queue = x ∷ rest }
unfolding pop_front
pop_front-next x rest s = ground arith

pop_front-last : (s : Socket) → s.closing ≡ true → (pop_front [] s).closed ≡ true
unfolding pop_front close_socket
pop_front-last s e = ground arith

-- A message that is well formed, not empty, and no longer than a write may take.
abbrev pub Sendable : ℕ → MessageBuffer → Type 0
Sendable limit m = Laws.IsValid m × (0 < active_size m) × (active_size m ≤ limit)

-- Everything has gone out and the socket is closed.
pub record Flushed (s s' : Socket) : Type 0 where
  pub all_sent : s'.sent ≡ s.sent ++ waiting s.write_queue
  pub empty : s'.write_queue ≡ []
  pub is_closed : s'.closed ≡ true

drain-Flushed :
    (limit : ℕ) (m : MessageBuffer) (rest : List MessageBuffer) (fuel k : ℕ) (s : Socket)
    → s.write_queue ≡ m ∷ rest
    → All (Sendable limit) (m ∷ rest)
    → s.closing ≡ true
    → length rest < fuel
    → Flushed s (drain fuel (λ i. room limit) k s).1
drain-Flushed limit m rest zero k s e v c h = ground arith
drain-Flushed limit m [] (suc fuel) k s e v c h = record {
  all_sent =
      ap (λ t. t.sent) ends
      ∙ (pop_front-fields [] (sending limit m s)).0
      ∙ ap (λ b. s.sent ++ b) (took_all m v.0.0 limit v.0.2 ∙ sym (append-nil (content m)))
      ∙ ap (λ q. s.sent ++ waiting q) (sym e);
  empty = ap (λ t. t.write_queue) ends ∙ pop_front-write_queue [] (sending limit m s);
  is_closed = ap (λ t. t.closed) ends ∙ pop_front-last (sending limit m s) c;
}
  where
    round : handle_queue (room limit) s ≡ (false, pop_front [] (sending limit m s))
    round = handle_queue-on (room limit) (m ∷ []) s e ∙ send_full limit m s [] v.0.1 v.0.2

    ends : (drain (suc fuel) (λ i. room limit) k s).1 ≡ pop_front [] (sending limit m s)
    ends =
        ap (λ r. r.1) (drain_stops fuel (λ i. room limit) k s (ap (λ r. r.0) round))
        ∙ ap (λ r. r.1) round
drain-Flushed limit m (x ∷ rest) (suc fuel) k s e v c h =
    let r = drain-Flushed limit x rest fuel (suc k) next refl v.1 c (omega arith) in
    record {
      all_sent =
          ap (λ t. t.1.sent) goes_on
          ∙ r.all_sent
          ∙ append_assoc s.sent (read_bytes m (min limit (active_size m))) (waiting (x ∷ rest))
          ∙ ap (λ b. s.sent ++ (b ++ waiting (x ∷ rest))) (took_all m v.0.0 limit v.0.2)
          ∙ ap (λ q. s.sent ++ waiting q) (sym e);
      empty = ap (λ t. t.1.write_queue) goes_on ∙ r.empty;
      is_closed = ap (λ t. t.1.closed) goes_on ∙ r.is_closed;
    }
  where
    next : Socket
    next = record (sending limit m s) { write_queue = x ∷ rest }

    round : handle_queue (room limit) s ≡ (true, next)
    round =
        handle_queue-on (room limit) (m ∷ x ∷ rest) s e
        ∙ send_full limit m s (x ∷ rest) v.0.1 v.0.2
        ∙ ap (λ t. (true, t)) (pop_front-next x rest (sending limit m s))

    goes_on : drain (suc fuel) (λ i. room limit) k s ≡ drain fuel (λ i. room limit) (suc k) next
    goes_on =
        drain_again fuel (λ i. room limit) k s (ap (λ r. r.0) round)
        ∙ ap (λ r. drain fuel (λ i. room limit) (suc k) r.1) round

update_drains :
    (answers : ℕ → Answer) (m : MessageBuffer) (rest : List MessageBuffer) (s : Socket)
    → s.write_queue ≡ m ∷ rest
    → s.closed ≡ false
    → s.is_writing_async ≡ false
    → (update answers s).1 ≡ (drain (suc (length s.write_queue)) answers 0 s).1
unfolding update
update_drains answers m rest s e c w =
    let f : is_nil s.write_queue ≡ false = ap is_nil e in ground arith

-- A socket that is marked for closing with messages still queued: one update sends them all in
-- order and closes the socket, when no write handler is pending, every message is well formed and
-- not empty, and every write takes as many bytes as the longest message has.
pub update-Flushed :
    (limit : ℕ) (m : MessageBuffer) (rest : List MessageBuffer) (s : Socket)
    → s.write_queue ≡ m ∷ rest
    → All (Sendable limit) (m ∷ rest)
    → s.closed ≡ false
    → s.closing ≡ true
    → s.is_writing_async ≡ false
    → Flushed s (update (λ i. room limit) s).1
update-Flushed limit m rest s e v o c w = rw (update_drains (λ i. room limit) m rest s e o w) (
    drain-Flushed limit m rest (suc (length s.write_queue)) 0 s e v c
      (let l : length s.write_queue ≡ suc (length rest) = ap length e in omega arith))
