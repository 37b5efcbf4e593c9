-- ===== src/ByteBuffer/Bounds.antt =====
-- No access outside the storage (ByteBuffer.h): every guarded operation on a valid buffer.
use warhead_discord_client.Common.{
  ℕ, ◌+◌, ◌-◌, ◌^◌, ◌≤◌, ◌<◌, ◌≡◌, true, false, arith, take, drop, ltb, lt→ltb, le→ltb, dec_lt,
}
use warhead_discord_client.Common.Bytes.{add64, le_value}
use warhead_discord_client.ByteBuffer.State.{ByteBuffer, Outcome, ok, throw, position}
use warhead_discord_client.ByteBuffer.Store.{IsValid}
use warhead_discord_client.ByteBuffer.{size, read_skip, read_uint, read_at, read}
use warhead_discord_client.ByteBuffer.Integers.{past}

-- The outcome of a read of n bytes: past the end it throws and changes nothing, else it delivers
-- something and passes the bytes, inside the storage.
pub data Guarded {A : Type 0} (n : ℕ) (b : ByteBuffer) (r : Outcome A × ByteBuffer) : Type 0 where
  refused : size b < b.rpos + n → r ≡ (throw (position false b.rpos n (size b)), b) → Guarded n b r
  passed : (a : A) → b.rpos + n ≤ size b → r ≡ (ok a, past n b) → Guarded n b r

module _ (n : ℕ) (b : ByteBuffer) (v : IsValid b) (hn : n < 2 ^ 62) where
  sum : add64 b.rpos n ≡ b.rpos + n
  sum = omega arith

  beyond : size b < b.rpos + n → ltb (size b) (add64 b.rpos n) ≡ true
  beyond h = lt→ltb _ _ (omega (arith, sum))

  inside : b.rpos + n ≤ size b → ltb (size b) (add64 b.rpos n) ≡ false
  inside h = le→ltb _ _ (omega (arith, sum))

  read_uint-Guarded : Guarded n b (read_uint n b)
  unfolding read_uint read_at
  read_uint-Guarded = elim (dec_lt (size b) (b.rpos + n)) [
    | yes h ↦ refused h (rw (beyond h))
    | no h ↦
        passed (le_value (take n (drop b.rpos b.storage))) (omega arith)
          (ground (arith, sum, inside (omega arith)))
  ]

  read-Guarded : Guarded n b (read n b)
  unfolding read
  read-Guarded = elim (dec_lt (size b) (b.rpos + n)) [
    | yes h ↦ refused h (rw (beyond h))
    | no h ↦
        passed (take n (drop b.rpos b.storage)) (omega arith)
          (ground (arith, sum, inside (omega arith)))
  ]

  read_skip-Guarded : Guarded n b (read_skip n b)
  unfolding read_skip
  read_skip-Guarded = elim (dec_lt (size b) (b.rpos + n)) [
    | yes h ↦ refused h (rw (beyond h))
    | no h ↦ passed tt (omega arith) (ground (arith, sum, inside (omega arith)))
  ]

-- On a valid buffer `read<T>()`, the raw `read` and `read_skip` of n bytes stay inside the storage:
-- past the end they throw and change nothing, else they pass exactly n bytes. The length is below
-- 2 ^ 62.
pub reads-Guarded :
    (n : ℕ) (b : ByteBuffer)
    → IsValid b
    → n < 2 ^ 62
    → Guarded n b (read_uint n b) × Guarded n b (read n b) × Guarded n b (read_skip n b)
reads-Guarded n b v hn =
    (read_uint-Guarded n b v hn, read-Guarded n b v hn, read_skip-Guarded n b v hn)

-- A skip of 2 ^ 64 - k bytes, for k up to the read position, passes the guard of `read_skip`, since
-- the sum wraps: it throws nothing and moves the read position k bytes back.
read_skip_wraps :
    (k : ℕ) (b : ByteBuffer)
    → IsValid b
    → 0 < k
    → k ≤ b.rpos
    → read_skip (2 ^ 64 - k) b ≡ (ok tt, record b { rpos = b.rpos - k })
unfolding read_skip
read_skip_wraps k b v hk h = ground (arith, wraps, guard)
  where
    wraps : add64 b.rpos (2 ^ 64 - k) ≡ b.rpos - k
    wraps = omega arith

    guard : ltb (size b) (add64 b.rpos (2 ^ 64 - k)) ≡ false
    guard = le→ltb _ _ (omega (arith, wraps))
