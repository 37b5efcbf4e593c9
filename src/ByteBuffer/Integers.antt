-- ===== src/ByteBuffer/Integers.antt =====
-- Reading typed values back from a ByteBuffer (`read<T>`, `operator>>`).
use warhead_discord_client.Common.{
  ℕ, ◌+◌, ◌^◌, ◌≤◌, ◌<◌, ◌≡◌, refl, sym, ap, ◌∙◌, List, ◌++◌, arith, length, take, drop,
  length-append, length-drop, take-append_eq, drop-append_eq, drop-drop,
}
use warhead_discord_client.Common.Bytes.{
  add64, le_bytes, le_value, length-le_bytes, le_value-le_bytes,
}
use warhead_discord_client.ByteBuffer.State.{ByteBuffer, ok}
use warhead_discord_client.ByteBuffer.Store.{IsValid}
use warhead_discord_client.ByteBuffer.{size, read_at, read_uint, read}

-- The bytes that are still to be read.
abbrev pub unread : ByteBuffer → List ℕ
unread b = drop b.rpos b.storage

-- The buffer with its read position n bytes on.
abbrev pub past : ℕ → ByteBuffer → ByteBuffer
past n b = record b { rpos = b.rpos + n }

pub length-unread : (b : ByteBuffer) → IsValid b → length (unread b) + b.rpos ≡ size b
length-unread b v = omega (arith, length-drop b.rpos b.storage)

pub past-IsValid : (n : ℕ) (b : ByteBuffer) → IsValid b → n ≤ length (unread b) → IsValid (past n b)
past-IsValid n b v h = omega (arith, length-drop b.rpos b.storage)

pub unread-past :
    (n : ℕ) (b : ByteBuffer) (xs ys : List ℕ)
    → unread b ≡ xs ++ ys
    → length xs ≡ n
    → unread (past n b) ≡ ys
unread-past n b xs ys e h =
    sym (drop-drop n b.rpos (b.rpos + n) b.storage refl)
    ∙ ap (drop n) e
    ∙ drop-append_eq n xs ys (sym h)

-- `read<T>()` returns the number that the next bytes stand for, and passes them.
pub read_uint_lem :
    (w : ℕ) (b : ByteBuffer) (xs ys : List ℕ)
    → IsValid b
    → unread b ≡ xs ++ ys
    → length xs ≡ w
    → read_uint w b ≡ (ok (le_value xs), past w b)
unfolding read_uint read_at
read_uint_lem w b xs ys v e h = ground (arith, room, sum, value)
  where
    room : b.rpos + w ≤ size b
    room = omega (arith, length-unread b v, ap length e, length-append xs ys)

    sum : add64 b.rpos w ≡ b.rpos + w
    sum = omega (arith, room)

    value : take w (unread b) ≡ xs
    value = ap (take w) e ∙ take-append_eq w xs ys (sym h)

-- The raw read returns the next bytes themselves.
pub read_lem :
    (w : ℕ) (b : ByteBuffer) (xs ys : List ℕ)
    → IsValid b
    → unread b ≡ xs ++ ys
    → length xs ≡ w
    → read w b ≡ (ok xs, past w b)
unfolding read
read_lem w b xs ys v e h = ground (arith, room, sum, value)
  where
    room : b.rpos + w ≤ size b
    room = omega (arith, length-unread b v, ap length e, length-append xs ys)

    sum : add64 b.rpos w ≡ b.rpos + w
    sum = omega (arith, room)

    value : take w (unread b) ≡ xs
    value = ap (take w) e ∙ take-append_eq w xs ys (sym h)

pub read_uint-le_bytes :
    (w n : ℕ) (b : ByteBuffer) (ys : List ℕ)
    → IsValid b
    → n < 256 ^ w
    → unread b ≡ le_bytes w n ++ ys
    → read_uint w b ≡ (ok n, past w b)
read_uint-le_bytes w n b ys v h e =
    read_uint_lem w b (le_bytes w n) ys v e (length-le_bytes w n)
    ∙ ap (λ k. (ok k, past w b)) (le_value-le_bytes w n h)
