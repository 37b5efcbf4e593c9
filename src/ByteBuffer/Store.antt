-- ===== src/ByteBuffer/Store.antt =====
-- `ByteBuffer::append` and `put` (ByteBuffer.cpp): what is stored where.
use warhead_discord_client.Common.{
  ℕ, ◌+◌, ◌-◌, ◌^◌, ◌≤◌, ◌<◌, ◌≡◌, ◌≢◌, refl, sym, ap, ap₂, ◌∙◌, max, List, ◌++◌, append-nil, arith,
  length, take, drop, resize, splice, replicate, ltb, if◌then◌else◌, length-resize, take-all,
  take-append_le, drop-all, inl, inr, take-splice, drop-splice, length-splice, Bool-cases, ltb→lt,
}
use warhead_discord_client.Common.Bytes.{add64}
use warhead_discord_client.ByteBuffer.State.{ByteBuffer, ok}
use warhead_discord_client.ByteBuffer.{size, append, put}

-- Both positions lie inside the storage, which a `size_t` measures with room to spare.
pub record IsValid (b : ByteBuffer) : Type 0 where
  pub read_in : b.rpos ≤ length b.storage
  pub write_in : b.wpos ≤ length b.storage
  pub small : length b.storage < 2 ^ 62

-- The storage as long as a copy of n bytes to position w needs it.
abbrev grown_to : ℕ → List ℕ → List ℕ
grown_to n xs = if ltb (length xs) n then resize n 0 xs else xs

length-grown_to : (n : ℕ) (xs : List ℕ) → length (grown_to n xs) ≡ max (length xs) n
length-grown_to n xs = ground (arith, length-resize n 0 xs)

take-grown_to : (w n : ℕ) (xs : List ℕ) → w ≤ length xs → take w (grown_to n xs) ≡ take w xs
take-grown_to w n xs h = elim (Bool-cases (ltb (length xs) n)) [
  | inl e ↦ rw e (
      ap (λ l. take w (l ++ replicate (n - length xs) 0))
        (take-all n xs (omega (arith, ltb→lt (length xs) n e)))
      ∙ take-append_le w xs (replicate (n - length xs) 0) h)
  | inr e ↦ rw e
]

drop-grown_to : (n : ℕ) (xs : List ℕ) → drop n (grown_to n xs) ≡ drop n xs
drop-grown_to n xs = elim (Bool-cases (ltb (length xs) n)) [
  | inl e ↦ rw e (
      drop-all n (resize n 0 xs) (omega (arith, length-resize n 0 xs))
      ∙ sym (drop-all n xs (omega (arith, ltb→lt (length xs) n e))))
  | inr e ↦ rw e
]

-- What is left of a storage after a copy.
abbrev stored : ByteBuffer → List ℕ → ByteBuffer
stored b src = record b {
  wpos = b.wpos + length src;
  storage = splice b.wpos src (grown_to (b.wpos + length src) b.storage);
}

append_stores :
    (b : ByteBuffer) (src : List ℕ)
    → IsValid b
    → length src ≢ 0
    → length src < 2 ^ 62
    → size b < 10000000
    → append src b ≡ (ok tt, stored b src)
unfolding append
append_stores b src v ne hs ha = ground (arith, e, length-grown_to (b.wpos + length src) b.storage)
  where
    e : add64 b.wpos (length src) ≡ b.wpos + length src
    e = omega arith

-- What `append` leaves: how the new buffer b' relates to b.
pub record Appended (b : ByteBuffer) (src : List ℕ) (b' : ByteBuffer) : Type 0 where
  pub valid : IsValid b'
  pub read_pos : b'.rpos ≡ b.rpos
  pub write_pos : b'.wpos ≡ b.wpos + length src
  pub grown_size : size b' ≡ max (size b) (b.wpos + length src)
  pub front : take b'.wpos b'.storage ≡ take b.wpos b.storage ++ src
  pub back : drop b'.wpos b'.storage ≡ drop b'.wpos b.storage

-- `append` of at least one byte to a valid buffer below ten million bytes succeeds. The new bytes stand right before the new
-- write position, behind what was there; what lies after them, the read position and, where the
-- copy ends inside it, the size stay as they were.
append_lem :
    (b : ByteBuffer) (src : List ℕ)
    → IsValid b
    → length src ≢ 0
    → length src < 2 ^ 61
    → size b < 10000000
    → (b' : ByteBuffer) × (append src b ≡ (ok tt, b')) × Appended b src b'
append_lem b src v ne hs ha = (
  stored b src,
  append_stores b src v ne (omega arith) ha,
  record {
    valid = omega (arith, total);
    read_pos = refl;
    write_pos = refl;
    grown_size = total;
    front =
        take-splice b.wpos (b.wpos + length src) src big room refl
        ∙ ap (λ l. l ++ src) (take-grown_to b.wpos (b.wpos + length src) b.storage v.write_in);
    back =
        drop-splice b.wpos (b.wpos + length src) src big room refl
        ∙ drop-grown_to (b.wpos + length src) b.storage;
  },
)
  where
    big : List ℕ
    big = grown_to (b.wpos + length src) b.storage

    total : length (splice b.wpos src big) ≡ max (size b) (b.wpos + length src)
    total = omega (
      arith,
      length-grown_to (b.wpos + length src) b.storage,
      length-splice b.wpos src big (omega (arith, length-grown_to (b.wpos + length src) b.storage)),
    )

    room : b.wpos ≤ length big
    room = omega (arith, v.write_in, length-grown_to (b.wpos + length src) b.storage)

-- At the end of the storage `append` is concatenation.
pub append_at_end :
    (b : ByteBuffer) (src : List ℕ)
    → IsValid b
    → b.wpos ≡ size b
    → length src ≢ 0
    → length src < 2 ^ 61
    → size b < 10000000
    → append src b ≡ (ok tt, record b { wpos = b.wpos + length src; storage = b.storage ++ src })
append_at_end b src v end ne hs ha =
    append_stores b src v ne (omega arith) ha
    ∙ ap (λ l. (ok tt, record b { wpos = b.wpos + length src; storage = l })) joined
  where
    n : ℕ
    n = b.wpos + length src

    joined : splice b.wpos src (grown_to n b.storage) ≡ b.storage ++ src
    joined =
        ap₂ (λ x y. x ++ (src ++ y))
          (take-grown_to b.wpos n b.storage v.write_in ∙ take-all b.wpos b.storage (omega arith))
          (drop-grown_to n b.storage ∙ drop-all n b.storage (omega arith))
        ∙ ap (λ l. b.storage ++ l) (append-nil src)

-- `put` inside the storage overwrites exactly its range.
pub put_lem :
    (b : ByteBuffer) (pos : ℕ) (src : List ℕ)
    → IsValid b
    → length src ≢ 0
    → pos + length src ≤ size b
    → put pos src b ≡ (ok tt, record b { storage = splice pos src b.storage })
unfolding put
put_lem b pos src v ne h = ground (arith, e)
  where
    e : add64 pos (length src) ≡ pos + length src
    e = omega arith
