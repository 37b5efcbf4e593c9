-- ===== src/MessageBuffer.antt =====
-- src/common/Utilities/MessageBuffer.h: the byte buffer between a socket and the packet layer.
-- Bytes from `rpos` to `wpos` are active; positions are `size_t`, so sums and differences wrap.
pub mod Laws
mod Runs
use warhead_discord_client.Common.{
  ℕ, ◌+◌, ◌*◌, ◌/◌, ◌%◌, ◌^◌, Bool, Option, none, some, List, [], length, take, drop, resize,
  splice, ltb, leb, ◌==◌, if◌then◌else◌,
}
use warhead_discord_client.Common.Bytes.{add64, sub64}

pub record MessageBuffer : Type 0 where
  pub wpos : ℕ
  pub rpos : ℕ
  pub storage : List ℕ

-- `MessageBuffer(initialSize)`; the default constructor takes 4096.
abbrev pub sized : ℕ → MessageBuffer
sized initial_size = record { wpos = 0; rpos = 0; storage = resize initial_size 0 [] }

abbrev pub default_size : ℕ
default_size = 4096

unfoldable pub reset : MessageBuffer → MessageBuffer
reset m = record m { wpos = 0; rpos = 0 }

-- `Resize` leaves the positions alone.
unfoldable pub resized : MessageBuffer → ℕ → MessageBuffer
resized m bytes = record m { storage = resize bytes 0 m.storage }

unfoldable pub read_completed : MessageBuffer → ℕ → MessageBuffer
read_completed m bytes = record m { rpos = add64 m.rpos bytes }

unfoldable pub write_completed : MessageBuffer → ℕ → MessageBuffer
write_completed m bytes = record m { wpos = add64 m.wpos bytes }

unfoldable pub active_size : MessageBuffer → ℕ
active_size m = sub64 m.wpos m.rpos

unfoldable pub remaining_space : MessageBuffer → ℕ
remaining_space m = sub64 (length m.storage) m.wpos

unfoldable pub buffer_size : MessageBuffer → ℕ
buffer_size m = length m.storage

-- The bytes from `GetReadPointer()` on, as many as asked for.
unfoldable pub read_bytes : MessageBuffer → ℕ → List ℕ
read_bytes m n = take n (drop m.rpos m.storage)

unfoldable pub normalize : MessageBuffer → MessageBuffer
unfolding read_bytes active_size
normalize m = if m.rpos == 0 then m else record m {
  wpos = sub64 m.wpos m.rpos;
  rpos = 0;
  storage =
      if m.rpos == m.wpos then m.storage else splice 0 (read_bytes m (active_size m)) m.storage;
}

unfoldable pub ensure_free_space : MessageBuffer → MessageBuffer
unfolding remaining_space
ensure_free_space m =
    if remaining_space m == 0
    then record m { storage = resize (length m.storage * 3 % 2 ^ 64 / 2) 0 m.storage }
    else m

-- `none` is a `memcpy` past the end of the storage, which is undefined behaviour.
unfoldable pub write : MessageBuffer → List ℕ → Option MessageBuffer
unfolding write_completed
write m bytes =
    if length bytes == 0
    then some m
    else if leb (m.wpos + length bytes) (length m.storage)
    then some
        (write_completed (record m { storage = splice m.wpos bytes m.storage }) (length bytes))
    else none

-- `Move()` hands the storage over and leaves an empty buffer.
unfoldable pub move_storage : MessageBuffer → List ℕ × MessageBuffer
move_storage m = (m.storage, record { wpos = 0; rpos = 0; storage = [] })

-- The move constructor: the new buffer, and what is left of the old one.
unfoldable pub moved : MessageBuffer → MessageBuffer × MessageBuffer
unfolding move_storage
moved m =
    let (bytes, rest) = move_storage m in
    (record { wpos = m.wpos; rpos = m.rpos; storage = bytes }, rest)
