-- ===== src/MessageBuffer/Laws.antt =====
-- MessageBuffer.h as a stream: each operation against the list of the active bytes.
use warhead_discord_client.Common.{
  ℕ, ◌+◌, ◌-◌, ◌*◌, ◌/◌, ◌^◌, ◌≤◌, ◌<◌, ◌≡◌, ◌≢◌, refl, sym, ap, ◌∙◌, some, List, [], ◌++◌,
  append_assoc, arith, length, take, drop, replicate, resize, splice, length-append, length-take,
  length-drop, length-resize, length-splice, drop-append_le, take-append_eq, take-append_le,
  drop-take, drop-drop, take-take, ℕ_discrete, take-all, append-nil, ap₂, ◌∷◌,
}
use warhead_discord_client.Common.Bytes.{add64}
use warhead_discord_client.MessageBuffer.{
  MessageBuffer, read_completed, write_completed, active_size, remaining_space, buffer_size,
  read_bytes, normalize, ensure_free_space, write,
}

-- The positions are ordered and inside a storage that a `size_t` can measure with room to spare.
pub record IsValid (m : MessageBuffer) : Type 0 where
  pub ordered : m.rpos ≤ m.wpos
  pub within : m.wpos ≤ length m.storage
  pub small : length m.storage < 2 ^ 62

-- The active bytes.
abbrev pub content : MessageBuffer → List ℕ
content m = take (m.wpos - m.rpos) (drop m.rpos m.storage)

pub length-content : {m : MessageBuffer} → IsValid m → length (content m) ≡ m.wpos - m.rpos
length-content {m} v =
    omega
      (arith, length-take (m.wpos - m.rpos) (drop m.rpos m.storage), length-drop m.rpos m.storage)

pub active_size-content : {m : MessageBuffer} → IsValid m → active_size m ≡ length (content m)
unfolding active_size
active_size-content v = omega (arith, length-content v)

pub remaining_space-valid :
    {m : MessageBuffer} → IsValid m → remaining_space m + m.wpos ≡ length m.storage
unfolding remaining_space
remaining_space-valid v = omega arith

pub read_bytes-content :
    (m : MessageBuffer) (n : ℕ) → n ≤ m.wpos - m.rpos → read_bytes m n ≡ take n (content m)
unfolding read_bytes
read_bytes-content m n h = sym (take-take n (m.wpos - m.rpos) (drop m.rpos m.storage) h)

-- What is before the write stays, and the new bytes follow it.
content-splice :
    (r w k : ℕ) (src xs : List ℕ)
    → r ≤ w
    → w + length src ≤ length xs
    → k ≡ w - r + length src
    → take k (drop r (splice w src xs)) ≡ take (w - r) (drop r xs) ++ src
content-splice r w k src xs hr hw hk =
    ap (take k) (
      drop-append_le r (take w xs) (src ++ drop (w + length src) xs)
        (omega (arith, length-take w xs)))
    ∙ ap (λ l. take k (l ++ (src ++ drop (w + length src) xs)))
        (drop-take r (w - r) w xs (omega arith))
    ∙ ap (take k) (sym (append_assoc (take (w - r) (drop r xs)) src (drop (w + length src) xs)))
    ∙ take-append_eq k (take (w - r) (drop r xs) ++ src) (drop (w + length src) xs) (
        omega (
          arith,
          length-append (take (w - r) (drop r xs)) src,
          length-take (w - r) (drop r xs),
          length-drop r xs,
        ))

-- The result of a write that fits.
pub record Wrote (m : MessageBuffer) (bytes : List ℕ) (m' : MessageBuffer) : Type 0 where
  pub valid : IsValid m'
  pub stream : content m' ≡ content m ++ bytes
  pub read_pos : m'.rpos ≡ m.rpos
  pub write_pos : m'.wpos ≡ m.wpos + length bytes
  pub size : length m'.storage ≡ length m.storage

-- A write that fits the remaining space succeeds and appends its bytes to the active ones; the read
-- position and the storage's size stay.
pub write_fits :
    (m : MessageBuffer) (bytes : List ℕ)
    → IsValid m
    → length bytes ≤ remaining_space m
    → (m' : MessageBuffer) × (write m bytes ≡ some m') × Wrote m bytes m'
unfolding write write_completed remaining_space
write_fits m [] v h = (
  m,
  refl,
  record {
    valid = v;
    stream = sym (append-nil (content m));
    read_pos = refl;
    write_pos = omega arith;
    size = refl;
  },
)
write_fits m (b ∷ bs) v h = (
  record m { wpos = add64 m.wpos (length (b ∷ bs)); storage = splice m.wpos (b ∷ bs) m.storage },
  ground arith,
  record {
    valid = omega (arith, same_size);
    stream =
        ap (λ k. take k (drop m.rpos (splice m.wpos (b ∷ bs) m.storage))) (omega arith)
        ∙ content-splice m.rpos m.wpos (m.wpos - m.rpos + length (b ∷ bs)) (b ∷ bs) m.storage
            v.ordered (omega arith) refl;
    read_pos = refl;
    write_pos = omega arith;
    size = same_size;
  },
)
  where
    same_size : length (splice m.wpos (b ∷ bs) m.storage) ≡ length m.storage
    same_size = length-splice m.wpos (b ∷ bs) m.storage (omega arith)

-- `ReadCompleted` drops bytes from the front of the stream.
pub read_completed_lem :
    (m : MessageBuffer) (n : ℕ)
    → IsValid m
    → n ≤ active_size m
    → IsValid (read_completed m n)
      × (content (read_completed m n) ≡ drop n (content m))
      × ((read_completed m n).wpos ≡ m.wpos)
      × ((read_completed m n).storage ≡ m.storage)
unfolding read_completed active_size
read_completed_lem m n v h = (
  omega arith,
  ap₂ (λ k i. take k (drop i m.storage)) (omega arith) (omega arith)
      ∙ ap (take (m.wpos - m.rpos - n)) (sym (drop-drop n m.rpos (m.rpos + n) m.storage refl))
      ∙ sym (
          drop-take n (m.wpos - m.rpos - n) (m.wpos - m.rpos) (drop m.rpos m.storage)
            (omega arith)),
  refl,
  refl,
)

-- `Normalize` by cases: nothing was read, all was read, or bytes are moved to the front.
normalize_unread : (m : MessageBuffer) → m.rpos ≡ 0 → normalize m ≡ m
unfolding normalize
normalize_unread m e = ground arith

normalize_drained :
    (m : MessageBuffer)
    → m.rpos ≢ 0
    → m.rpos ≡ m.wpos
    → normalize m ≡ record m { wpos = 0; rpos = 0 }
unfolding normalize
normalize_drained m z e = ground arith

normalize_moves :
    (m : MessageBuffer)
    → IsValid m
    → m.rpos ≢ 0
    → m.rpos ≢ m.wpos
    → normalize m
      ≡ record m { wpos = m.wpos - m.rpos; rpos = 0; storage = splice 0 (content m) m.storage }
unfolding normalize active_size
normalize_moves m v z e = ground (
  arith,
  read_bytes-content m (m.wpos - m.rpos),
  take-all (m.wpos - m.rpos) (content m),
  length-content v,
)

-- `Normalize` keeps the stream and moves it to the front, so that all space that is not active is
-- free to write.
pub normalize_lem :
    (m : MessageBuffer)
    → IsValid m
    → IsValid (normalize m)
      × (content (normalize m) ≡ content m)
      × ((normalize m).rpos ≡ 0)
      × (remaining_space (normalize m) + active_size m ≡ buffer_size m)
unfolding remaining_space active_size buffer_size
normalize_lem m v = elim (ℕ_discrete m.rpos 0) [
  | yes z ↦ rw (normalize_unread m z) (v, refl, z, omega arith)
  | no nz ↦ elim (ℕ_discrete m.rpos m.wpos) [
    | yes e ↦ rw (normalize_drained m nz e) (omega arith, nothing_left e, refl, omega arith)
    | no ne ↦ rw (normalize_moves m v nz ne) (
      omega (arith, same_size),
      take-append_eq (m.wpos - m.rpos - 0) (content m) _ (omega (arith, length-content v)),
      refl,
      omega (arith, same_size),
    )
  ]
]
  where
    same_size : length (splice 0 (content m) m.storage) ≡ length m.storage
    same_size = length-splice 0 (content m) m.storage (omega (arith, length-content v))

    nothing_left : m.rpos ≡ m.wpos → [] ≡ content m
    nothing_left e =
        let k : 0 ≡ m.wpos - m.rpos = omega arith in ap (λ k. take k (drop m.rpos m.storage)) k

-- Growing the storage does not touch what is active.
content-resize :
    (r w n : ℕ) (xs : List ℕ)
    → r ≤ w
    → w ≤ length xs
    → length xs ≤ n
    → take (w - r) (drop r (resize n 0 xs)) ≡ take (w - r) (drop r xs)
content-resize r w n xs hr hw hn =
    ap (λ l. take (w - r) (drop r (l ++ fill))) (take-all n xs hn)
    ∙ ap (take (w - r)) (drop-append_le r xs fill (omega arith))
    ∙ take-append_le (w - r) (drop r xs) fill (omega (arith, length-drop r xs))
  where
    fill : List ℕ
    fill = replicate (n - length xs) 0

-- What `EnsureFreeSpace` grows a full storage to.
abbrev grown : MessageBuffer → MessageBuffer
grown m = record m { storage = resize (length m.storage * 3 / 2) 0 m.storage }

-- `EnsureFreeSpace` keeps the stream, and on a storage of two bytes or more leaves room to write.
ensure_free_space_lem :
    (m : MessageBuffer)
    → IsValid m
    → length m.storage < 2 ^ 61
    → 2 ≤ length m.storage
    → IsValid (ensure_free_space m)
      × (content (ensure_free_space m) ≡ content m)
      × (0 < remaining_space (ensure_free_space m))
      × (length m.storage ≤ length (ensure_free_space m).storage)
ensure_free_space_lem m v h two = elim (ℕ_discrete m.wpos (length m.storage)) [
  | yes e ↦ rw (full e) (
      unfold remaining_space in
      (
        omega (arith, size),
        content-resize m.rpos m.wpos (length m.storage * 3 / 2) m.storage v.ordered v.within
            (omega arith),
        omega (arith, size),
        omega (arith, size),
      ))
  | no ne ↦ rw (free ne) (v, refl, unfold remaining_space in omega arith, omega arith)
]
  where
    full : m.wpos ≡ length m.storage → ensure_free_space m ≡ grown m
    full e = unfold ensure_free_space in ground arith

    free : m.wpos ≢ length m.storage → ensure_free_space m ≡ m
    free ne = unfold ensure_free_space in ground arith

    size : length (grown m).storage ≡ length m.storage * 3 / 2
    size = length-resize (length m.storage * 3 / 2) 0 m.storage
