-- ===== src/Socket/Stream.antt =====
-- The write side of Socket.h as a byte stream: what is queued goes out in order.
use warhead_discord_client.Common.{
  ℕ, zero, suc, ◌≤◌, ◌<◌, ◌≡◌, ◌≢◌, refl, sym, ap, ap₂, ◌∙◌, min, true, false, List, [], ◌∷◌, ◌++◌,
  append_assoc, inl, inr, ◌⊎◌, arith, length, All, Bool-cases, take-append-drop, take-all, dec_lt,
}
use warhead_discord_client.MessageBuffer.{MessageBuffer, active_size, read_bytes, read_completed}
use warhead_discord_client.MessageBuffer.Laws.{
  content, length-content, active_size-content, read_bytes-content, read_completed_lem,
}
use warhead_discord_client.MessageBuffer.Laws
use warhead_discord_client.Socket.{
  Socket, Answer, would_block, failed, room, close_socket, async_process_queue, pop_front,
  send_front, handle_queue, drain, update, on_queue,
}

-- The bytes that wait in a queue of messages.
abbrev pub waiting : List MessageBuffer → List ℕ
waiting [] = []
waiting (m ∷ ms) = content m ++ waiting ms

pub waiting-append : (xs ys : List MessageBuffer) → waiting (xs ++ ys) ≡ waiting xs ++ waiting ys
waiting-append [] ys = refl
waiting-append (m ∷ xs) ys =
    ap (λ l. content m ++ l) (waiting-append xs ys)
    ∙ sym (append_assoc (content m) (waiting xs) (waiting ys))

-- All that was ever queued and not dropped: what has gone out, and what waits.
abbrev pub stream : Socket → List ℕ
stream s = s.sent ++ waiting s.write_queue

abbrev pub QueueIsValid : Socket → Type 0
QueueIsValid s = All Laws.IsValid s.write_queue

-- An answer that costs no message: neither an error nor "no room" to a write.
abbrev pub Takes : Answer → Type 0
Takes would_block = Unit {0}
Takes failed = ⊥
Takes (room n) = n ≢ 0

-- The queue with its first message cut by the n bytes that went out, or without it.
module _ (m : MessageBuffer) (v : Laws.IsValid m) where
  pub took_all : (n : ℕ) → active_size m ≤ n → read_bytes m (min n (active_size m)) ≡ content m
  took_all n h =
      ap (read_bytes m) (omega arith)
      ∙ read_bytes-content m (active_size m)
          (omega (arith, active_size-content v, length-content v))
      ∙ take-all (active_size m) (content m) (omega (arith, active_size-content v))

  took_some :
      (n : ℕ) → n ≤ active_size m → read_bytes m n ++ content (read_completed m n) ≡ content m
  took_some n h =
      ap₂ ◌++◌ (read_bytes-content m n (omega (arith, active_size-content v, length-content v)))
        (read_completed_lem m n v h).1
      ∙ take-append-drop n (content m)

-- What a call left: the stream and the validity of the messages.
pub record Kept (s s' : Socket) : Type 0 where
  pub same : stream s' ≡ stream s
  pub valid : QueueIsValid s'

pub pop_front-fields :
    (rest : List MessageBuffer) (s : Socket)
    → ((pop_front rest s).sent ≡ s.sent) × ((pop_front rest s).write_queue ≡ rest)
unfolding pop_front close_socket
pop_front-fields rest s = ground arith

async_process_queue-fields :
    (s : Socket)
    → ((async_process_queue s).1.sent ≡ s.sent)
      × ((async_process_queue s).1.write_queue ≡ s.write_queue)
unfolding async_process_queue
async_process_queue-fields s = ground arith

-- The three outcomes of a write.
module _ (n : ℕ) (m : MessageBuffer) (rest : List MessageBuffer) (s : Socket) where
  abbrev taking : ℕ → Socket
  taking k = record s { sent = s.sent ++ read_bytes m k }

  pub send_whole :
      active_size m ≤ n
      → (send_front (room n) m rest s).1 ≡ pop_front rest (taking (min n (active_size m)))
  unfolding send_front
  send_whole h = ground arith

  send_part :
      n ≢ 0
      → n < active_size m
      → (send_front (room n) m rest s).1
        ≡ (async_process_queue (record (taking n) { write_queue = read_completed m n ∷ rest })).1
  unfolding send_front
  send_part ne h = let k : min n (active_size m) ≡ n = omega arith in rw k (ground arith)

pub carries :
    (s s' : Socket) (x : List ℕ) (q : List MessageBuffer)
    → s'.sent ≡ x
    → s'.write_queue ≡ q
    → x ++ waiting q ≡ stream s
    → All Laws.IsValid q
    → Kept s s'
carries s s' x q e f h v = record { same = ap₂ (λ a b. a ++ waiting b) e f ∙ h; valid = rw f v }

pop_front-Kept :
    (s : Socket) (x : List ℕ) (rest : List MessageBuffer)
    → x ++ waiting rest ≡ stream s
    → All Laws.IsValid rest
    → Kept s (pop_front rest (record s { sent = x }))
pop_front-Kept s x rest h v =
    let f = pop_front-fields rest (record s { sent = x }) in
    carries s (pop_front rest (record s { sent = x })) x rest f.0 f.1 h v

async_process_queue-Kept :
    (s t : Socket) → stream t ≡ stream s → QueueIsValid t → Kept s (async_process_queue t).1
async_process_queue-Kept s t h v =
    let f = async_process_queue-fields t in
    carries s (async_process_queue t).1 t.sent t.write_queue f.0 f.1 h v

send_front-Kept :
    (a : Answer) (m : MessageBuffer) (rest : List MessageBuffer) (s : Socket)
    → Takes a
    → s.write_queue ≡ m ∷ rest
    → QueueIsValid s
    → Kept s (send_front a m rest s).1
send_front-Kept would_block m rest s t e v =
    unfold send_front in async_process_queue-Kept s s refl v
send_front-Kept failed m rest s t e v = absurd t
send_front-Kept (room n) m rest s t e v = elim (dec_lt n (active_size m)) [
  | yes h ↦ rw (send_part n m rest s t h) (
      async_process_queue-Kept s _
        (moved (read_bytes m n) (content (read_completed m n))
          (took_some m front.0 n (omega arith)))
        ((read_completed_lem m n front.0 (omega arith)).0, front.1))
  | no h ↦ rw (send_whole n m rest s (omega arith)) (
      pop_front-Kept s (s.sent ++ read_bytes m (min n (active_size m))) rest
        (append_assoc s.sent _ (waiting rest)
          ∙ ap (λ l. s.sent ++ (l ++ waiting rest)) (took_all m front.0 n (omega arith))
          ∙ sym whole)
        front.1)
]
  where
    front : Laws.IsValid m × All Laws.IsValid rest
    front = rw e at v

    whole : stream s ≡ s.sent ++ (content m ++ waiting rest)
    whole = ap (λ q. s.sent ++ waiting q) e

    moved : (x y : List ℕ) → x ++ y ≡ content m → (s.sent ++ x) ++ (y ++ waiting rest) ≡ stream s
    moved x y h =
        append_assoc s.sent x (y ++ waiting rest)
        ∙ ap (λ l. s.sent ++ l)
            (sym (append_assoc x y (waiting rest)) ∙ ap (λ l. l ++ waiting rest) h)
        ∙ sym whole

on_queue-Kept :
    (a : Answer) (q : List MessageBuffer) (s : Socket)
    → Takes a
    → s.write_queue ≡ q
    → QueueIsValid s
    → Kept s (on_queue a q s).1
on_queue-Kept a [] s t e v = record { same = refl; valid = v }
on_queue-Kept a (m ∷ rest) s t e v = send_front-Kept a m rest s t e v

pub handle_queue-Kept :
    (a : Answer) (s : Socket) → Takes a → QueueIsValid s → Kept s (handle_queue a s).1
unfolding handle_queue
handle_queue-Kept a s t v = on_queue-Kept a s.write_queue s t refl v

Kept-trans : {s t u : Socket} → Kept s t → Kept t u → Kept s u
Kept-trans p q = record { same = q.same ∙ p.same; valid = q.valid }

module _ (fuel : ℕ) (answers : ℕ → Answer) (k : ℕ) (s : Socket) where
  pub drain_again :
      (handle_queue (answers k) s).0 ≡ true
      → drain (suc fuel) answers k s ≡ drain fuel answers (suc k) (handle_queue (answers k) s).1
  unfolding drain
  drain_again e = ground arith

  pub drain_stops :
      (handle_queue (answers k) s).0 ≡ false
      → drain (suc fuel) answers k s ≡ (true, (handle_queue (answers k) s).1)
  unfolding drain
  drain_stops e = ground arith

drain-Kept :
    (fuel : ℕ) (answers : ℕ → Answer) (k : ℕ) (s : Socket)
    → ((i : ℕ) → Takes (answers i))
    → QueueIsValid s
    → Kept s (drain fuel answers k s).1
drain-Kept zero answers k s t v = unfold drain in record { same = refl; valid = v }
drain-Kept (suc fuel) answers k s t v =
    let p : Kept s (handle_queue (answers k) s).1 = handle_queue-Kept (answers k) s (t k) v in
    elim (Bool-cases (handle_queue (answers k) s).0) [
      | inl e ↦
          rw (drain_again fuel answers k s e) (
            Kept-trans p (drain-Kept fuel answers (suc k) (handle_queue (answers k) s).1 t p.valid))
      | inr e ↦ rw (drain_stops fuel answers k s e) p
    ]

-- The two outcomes of an update.
pub update-cases :
    (answers : ℕ → Answer) (s : Socket)
    → ((update answers s).1 ≡ s)
      ⊎ ((update answers s).1 ≡ (drain (suc (length s.write_queue)) answers 0 s).1)
unfolding update
update-cases answers s = ground arith

pub update-Kept :
    (answers : ℕ → Answer) (s : Socket)
    → ((i : ℕ) → Takes (answers i))
    → QueueIsValid s
    → Kept s (update answers s).1
update-Kept answers s t v = elim (update-cases answers s) [
  | inl e ↦ rw e (record { same = refl; valid = v })
  | inr e ↦ rw e (drain-Kept (suc (length s.write_queue)) answers 0 s t v)
]
