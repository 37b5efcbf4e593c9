-- ===== src/Socket.antt =====
-- src/shared/Network/Socket.h: the write queue of a connection and how it closes (the build without
-- IOCP). The operating system enters as the answer to each `write_some`; logging is left out.
pub mod Events
pub mod Stream
pub mod History
pub mod Closing
pub mod Draining
mod Runs
use warhead_discord_client.Common.{
  ℕ, zero, suc, ◌+◌, ◌-◌, min, Bool, true, false, not, ◌&&◌, ◌||◌, List, [], ◌∷◌, ◌++◌, length, ltb,
  ◌==◌, if◌then◌else◌,
}
use warhead_discord_client.MessageBuffer.{
  MessageBuffer, default_size, sized, active_size, read_bytes, read_completed, normalize,
  ensure_free_space, resized,
}

-- What `write_some` answers: try again later, another error, or room for so many bytes.
pub data Answer : Type 0 where
  would_block failed : Answer
  room : ℕ → Answer

-- `sent` is what the operating system has taken; `waits` counts the write handlers that it owes;
-- `on_close_calls` counts the calls of `OnClose`.
pub record Socket : Type 0 where
  pub read_buffer : MessageBuffer
  pub write_queue : List MessageBuffer
  pub closed : Bool
  pub closing : Bool
  pub is_writing_async : Bool
  pub sent : List ℕ
  pub waits : ℕ
  pub on_close_calls : ℕ

-- `READ_BLOCK_SIZE`
abbrev pub read_block_size : ℕ
read_block_size = 4096

-- The constructor.
unfoldable pub opened : Socket
unfolding resized
opened = record {
  read_buffer = resized (sized default_size) read_block_size;
  write_queue = [];
  closed = false;
  closing = false;
  is_writing_async = false;
  sent = [];
  waits = 0;
  on_close_calls = 0;
}

unfoldable pub is_open : Socket → Bool
is_open s = not s.closed && not s.closing

unfoldable pub queue_packet : MessageBuffer → Socket → Socket
queue_packet buffer s = record s { write_queue = s.write_queue ++ (buffer ∷ []) }

unfoldable pub close_socket : Socket → Socket
close_socket s =
    if s.closed then s else record s { closed = true; on_close_calls = s.on_close_calls + 1 }

unfoldable pub delayed_close_socket : Socket → Socket
delayed_close_socket s = record s { closing = true }

-- `AsyncRead`, up to the call of `async_read_some`: the buffer is made ready.
unfoldable pub async_read : Socket → Socket
unfolding is_open
async_read s =
    if is_open s then record s { read_buffer = ensure_free_space (normalize s.read_buffer) } else s

unfoldable pub async_process_queue : Socket → Bool × Socket
async_process_queue s =
    if s.is_writing_async
    then (false, s)
    else (false, record s { is_writing_async = true; waits = s.waits + 1 })

abbrev pub is_nil : List MessageBuffer → Bool
is_nil [] = true
is_nil (m ∷ rest) = false

-- `_writeQueue.pop(); if (_closing && _writeQueue.empty()) CloseSocket();`
unfoldable pub pop_front : List MessageBuffer → Socket → Socket
unfolding close_socket
pop_front rest s =
    let popped = record s { write_queue = rest } in
    if s.closing && is_nil rest then close_socket popped else popped

-- `HandleQueue` on a queue with a first message.
unfoldable pub send_front : Answer → MessageBuffer → List MessageBuffer → Socket → Bool × Socket
unfolding async_process_queue pop_front
send_front would_block m rest s = async_process_queue s
send_front failed m rest s = (false, pop_front rest s)
send_front (room n) m rest s =
    let bytes_to_send = active_size m in
    let bytes_sent = min n bytes_to_send in
    let s' = record s { sent = s.sent ++ read_bytes m bytes_sent } in
    if bytes_sent == 0
    then (false, pop_front rest s')
    else if ltb bytes_sent bytes_to_send
    then async_process_queue (record s' { write_queue = read_completed m bytes_sent ∷ rest })
    else (not (is_nil rest), pop_front rest s')

abbrev pub on_queue : Answer → List MessageBuffer → Socket → Bool × Socket
on_queue a [] s = (false, s)
on_queue a (m ∷ rest) s = send_front a m rest s

unfoldable pub handle_queue : Answer → Socket → Bool × Socket
unfolding send_front
handle_queue a s = on_queue a s.write_queue s

-- `WriteHandlerWrapper`: a write handler that the operating system owed.
unfoldable pub write_handler_wrapper : Answer → Socket → Socket
unfolding handle_queue
write_handler_wrapper a s =
    (handle_queue a (record s { is_writing_async = false; waits = s.waits - 1 })).1

-- `for (; HandleQueue();)`, with the answers from number k on. A round that goes on has taken a
-- message off the queue, so the length of the queue bounds the rounds. The result says first whether the
-- loop has ended: without fuel it has not.
unfoldable pub drain : ℕ → (ℕ → Answer) → ℕ → Socket → Bool × Socket
drain zero answers k s = (false, s)
drain (suc fuel) answers k s =
    let (again, s') = handle_queue (answers k) s in
    elim again [ true ↦ drain fuel answers (suc k) s' | false ↦ (true, s') ]

-- The fuel of the loop is more than there are messages, which is enough.
unfoldable pub update : (ℕ → Answer) → Socket → Bool × Socket
unfolding drain
update answers s =
    if s.closed
    then (false, s)
    else if s.is_writing_async || (is_nil s.write_queue && not s.closing)
    then (true, s)
    else (true, (drain (suc (length s.write_queue)) answers 0 s).1)
