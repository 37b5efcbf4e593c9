-- ===== src/Socket/Events.antt =====
-- src/shared/Network/Socket.h: what may happen to a socket, as steps, and histories of them.
use warhead_discord_client.Common.{ℕ, List, [], ◌∷◌}
use warhead_discord_client.MessageBuffer.{MessageBuffer}
use warhead_discord_client.Socket.{
  Socket, Answer, queue_packet, close_socket, delayed_close_socket, async_read,
  write_handler_wrapper, update,
}

-- What happens to a socket: the client queues a message, updates, closes, or reads; the operating
-- system runs a write handler.
pub data Event : Type 0 where
  queues : MessageBuffer → Event
  updates : (ℕ → Answer) → Event
  writes : Answer → Event
  closes : Event
  closes_later : Event
  reads : Event

unfoldable pub step : Event → Socket → Socket
step (queues m) s = queue_packet m s
step (updates answers) s = (update answers s).1
step (writes a) s = write_handler_wrapper a s
step closes s = close_socket s
step closes_later s = delayed_close_socket s
step reads s = async_read s

unfoldable pub run : List Event → Socket → Socket
run [] s = s
run (e ∷ es) s = run es (step e s)
