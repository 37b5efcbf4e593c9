-- ===== src/ClientSocket/State.antt =====
-- src/client/Client/ClientSocket.h and src/client/Packets/DiscordPacket.h: the state of the client's
-- connection, and what a call on it can come to.
use warhead_discord_client.Common.{ℕ, Bool, Option, none, some, List}
use warhead_discord_client.ByteBuffer.State.{ByteBuffer, Exception}
use warhead_discord_client.MessageBuffer.{MessageBuffer}
use warhead_discord_client.Socket.{Socket}

-- A `DiscordPacket`: an opcode and the byte buffer that the class extends. The time of receipt is
-- never set on this side.
pub record DiscordPacket : Type 0 where
  pub opcode : ℕ
  pub payload : ByteBuffer

-- `disconnects` counts the calls of `sClientSocketMgr->Disconnect()`; times are microseconds, kept as
-- 64-bit patterns. The session lock guards log lines only.
pub record ClientSocket : Type 0 where
  pub socket : Socket
  pub header_buffer : MessageBuffer
  pub packet_buffer : MessageBuffer
  pub authed : Bool
  pub account_name : List ℕ
  pub account_key : List ℕ
  pub server_id : ℕ
  pub start_time : ℕ
  pub latency : ℕ
  pub buffer_queue : List DiscordPacket
  pub disconnects : ℕ

-- `threw` is a `ByteBufferException` and `out_of_range` the exception of `EnumUtils`, which no handler
-- here catches; `assert_failed` ends the process; `undefined` is an access outside a storage.
pub data Result (A : Type 0) : Type 0 where
  done : A → Result A
  threw : Exception → Result A
  out_of_range : Result A
  assert_failed : Result A
  undefined : Result A

-- A handler leaves its socket behind whatever it comes to.
abbrev pub Handler : Type 0 → Type 0
Handler A = ClientSocket → Result A × ClientSocket

abbrev pub chain : {A B : Type 0} → Result A → (A → Handler B) → Handler B
chain (done a) k c = k a c
chain (threw e) k c = (threw e, c)
chain out_of_range k c = (out_of_range, c)
chain assert_failed k c = (assert_failed, c)
chain undefined k c = (undefined, c)

-- A copy that would run past a storage is undefined.
abbrev pub or_undefined : {A : Type 0} → Option A → Result A
or_undefined none = undefined
or_undefined (some a) = done a

abbrev pub option_then : {A B : Type 0} → Option A → (A → Option B) → Option B
option_then none k = none
option_then (some a) k = k a
