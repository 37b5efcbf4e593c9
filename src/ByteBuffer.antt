-- ===== src/ByteBuffer.antt =====
-- src/shared/Packet/ByteBuffer.h and ByteBuffer.cpp: the packet payload with a read and a write
-- position. The capacity of the vector is no part of the state: `reserve` and `shrink_to_fit` change
-- nothing that the class lets a caller see. Objects are stored little-endian (`EndianConvert` does
-- nothing on such a machine); a signed integer is its two's-complement pattern.
pub mod State
pub mod Store
pub mod Bounds
pub mod Integers
pub mod CString
pub mod RoundTrip
pub mod PackGuid
mod Runs
use warhead_discord_client.Common.{
  ℕ, zero, suc, ◌+◌, ◌-◌, ◌%◌, ◌^◌, Bool, true, false, Option, none, some, List, [], ◌∷◌, ◌++◌,
  length, take, drop, resize, splice, get_or, ltb, leb, ◌==◌, ◌&&◌, if◌then◌else◌,
}
use warhead_discord_client.Common.Bytes.{add64, le_bytes, le_value}
use warhead_discord_client.MessageBuffer.{MessageBuffer, move_storage}
use State.{
  ByteBuffer, Exception, position, M, Outcome, ok, throw, assert_failed, undefined, pure, ◌>>=◌,
  ◌>>◌,
}

abbrev pub empty_buffer : ByteBuffer
empty_buffer = record { rpos = 0; wpos = 0; storage = [] }

-- `ByteBuffer(MessageBuffer&&)`, with what is left of the message buffer.
unfoldable pub of_message : MessageBuffer → ByteBuffer × MessageBuffer
unfolding move_storage
of_message m =
    let (bytes, rest) = move_storage m in (record { rpos = 0; wpos = 0; storage = bytes }, rest)

-- The move constructor takes positions and storage, and leaves the old buffer empty.
unfoldable pub moved : ByteBuffer → ByteBuffer × ByteBuffer
moved b = (b, empty_buffer)

unfoldable pub clear : ByteBuffer → ByteBuffer
clear b = empty_buffer

abbrev pub size : ByteBuffer → ℕ
size b = length b.storage

unfoldable pub resized : ByteBuffer → ℕ → ByteBuffer
resized b new_size = record { rpos = 0; wpos = new_size; storage = resize new_size 0 b.storage }

unfoldable pub rfinish : ByteBuffer → ByteBuffer
rfinish b = record b { rpos = b.wpos }

-- `operator[]`
unfoldable pub at : ℕ → M ℕ
at pos b =
    if leb (size b) pos
    then (throw (position false pos 1 (size b)), b)
    else (ok (get_or b.storage pos 0), b)

-- `append(uint8 const*, size_t)`: grow to the new end, then copy. The source is not null. A sum that
-- wraps makes the copy run past the storage.
unfoldable pub append : List ℕ → M (Unit {0})
append src b =
    if length src == 0
    then (assert_failed, b)
    else if leb 10000000 (size b)
    then (assert_failed, b)
    else let new_size = add64 b.wpos (length src) in
      let grown = if ltb (size b) new_size then resize new_size 0 b.storage else b.storage in
      if leb (b.wpos + length src) (length grown)
      then (ok tt, record b { wpos = new_size; storage = splice b.wpos src grown })
      else (undefined, record b { storage = grown })

-- `append<T>` for an unsigned T of w bytes, and `operator<<` of that type.
unfoldable pub append_uint : ℕ → ℕ → M (Unit {0})
append_uint w value = append (le_bytes w value)

-- `operator<<(bool)`
unfoldable pub append_bool : Bool → M (Unit {0})
append_bool value = append_uint 1 (if value then 1 else 0)

-- `operator<<(std::string_view)`: the characters, if there are any, and a terminating zero.
unfoldable pub append_string : List ℕ → M (Unit {0})
append_string value = do if length value == 0 then pure tt else append value; append (0 ∷ [])

-- `operator<<(char const*)`, where `none` is the null pointer.
unfoldable pub append_c_str : Option (List ℕ) → M (Unit {0})
append_c_str none = append_string []
append_c_str (some str) = append_string str

-- `append(ByteBuffer const&)`: the first `wpos` bytes of the other buffer. `contents()` throws on an
-- empty one, and a write position past its end reads outside it.
unfoldable pub append_buffer : ByteBuffer → M (Unit {0})
append_buffer other b =
    if other.wpos == 0
    then (ok tt, b)
    else if size other == 0
    then (throw base, b)
    else if leb other.wpos (size other)
    then append (take other.wpos other.storage) b
    else (undefined, b)
  where
    base : Exception
    base = Exception.plain

-- `put(size_t, uint8 const*, size_t)`
unfoldable pub put : ℕ → List ℕ → M (Unit {0})
put pos src b =
    if ltb (size b) (add64 pos (length src))
    then (assert_failed, b)
    else if length src == 0
    then (assert_failed, b)
    else if leb (pos + length src) (size b)
    then (ok tt, record b { storage = splice pos src b.storage })
    else (undefined, b)

unfoldable pub put_uint : ℕ → ℕ → ℕ → M (Unit {0})
put_uint w pos value = put pos (le_bytes w value)

-- `read_skip(size_t)`
unfoldable pub read_skip : ℕ → M (Unit {0})
read_skip skip b =
    if ltb (size b) (add64 b.rpos skip)
    then (throw (position false b.rpos skip (size b)), b)
    else (ok tt, record b { rpos = add64 b.rpos skip })

-- `read<T>(size_t pos)` for an unsigned T of w bytes.
unfoldable pub read_at : ℕ → ℕ → M ℕ
read_at w pos b =
    if ltb (size b) (add64 pos w)
    then (throw (position false pos w (size b)), b)
    else if leb (pos + w) (size b)
    then (ok (le_value (take w (drop pos b.storage))), b)
    else (undefined, b)

-- `r += n` on the read position
abbrev advance : ℕ → M (Unit {0})
advance n b = (ok tt, record b { rpos = add64 b.rpos n })

-- `read<T>()` and `operator>>` of an unsigned type.
unfoldable pub read_uint : ℕ → M ℕ
unfolding read_at
read_uint w b = (do r ← read_at w b.rpos; advance w; pure r) b

-- `operator>>(bool&)`: `char` is signed.
unfoldable pub read_bool : M Bool
unfolding read_uint
read_bool = do c ← read_uint 1; pure (ltb 0 c && ltb c 128)

-- `read(uint8*, size_t)`
unfoldable pub read : ℕ → M (List ℕ)
read len b =
    if ltb (size b) (add64 b.rpos len)
    then (throw (position false b.rpos len (size b)), b)
    else if leb (b.rpos + len) (size b)
    then (ok (take len (drop b.rpos b.storage)), record b { rpos = add64 b.rpos len })
    else (undefined, b)
