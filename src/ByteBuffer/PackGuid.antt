-- ===== src/ByteBuffer/PackGuid.antt =====
-- `appendPackGUID` and `readPackGUID` (ByteBuffer.h): a 64-bit number as a mask of its non-zero bytes
-- and those bytes.
use Prim.Native.Nat.{bit_and, bit_or}
use native.Mathlib.Nat.{
  pow-suc, le-mul_of_pos_right, mul-le-mul_right, div-add-mod, div-div-eq-div-mul,
}
use native.Mathlib.Numerals.{towards_suc}
use warhead_discord_client.Common.{
  ℕ, zero, suc, ◌+◌, ◌*◌, ◌/◌, ◌%◌, ◌^◌, ◌≤◌, ◌<◌, ◌≡◌, refl, sym, ap, ap₂, ◌∙◌, true, false, List,
  [], ◌∷◌, ◌++◌, append_assoc, append-nil, arith, length, ltb, le→ltb, ==_iff, ◌==◌, if◌then◌else◌,
  Bool-cases, inl, inr,
}
use warhead_discord_client.Common.Bits.{bit_or_above, bit_and_mask, bit_and_bit, two_pow_pos}
use warhead_discord_client.Common.Bytes.{add64}
use warhead_discord_client.ByteBuffer.State.{ByteBuffer, M, ok, throw, position, pure, ◌>>=◌, ◌>>◌}
use warhead_discord_client.ByteBuffer.Store.{IsValid}
use warhead_discord_client.ByteBuffer.{size, append, empty_buffer, read_uint}
use warhead_discord_client.ByteBuffer.Integers.{
  unread, past, past-IsValid, unread-past, length-unread,
}
use warhead_discord_client.ByteBuffer.CString.{read_byte, past_zero, past-past}
use warhead_discord_client.ByteBuffer.RoundTrip.{AtEnd, extended, received, append_extends}

-- `for (uint8 i = 0; guid != 0; ++i)`: the mask byte and the bytes behind it. A 64-bit number is zero
-- after eight rounds.
unfoldable pub pack_loop : ℕ → ℕ → ℕ → ℕ → List ℕ → ℕ × List ℕ
pack_loop zero i guid mask bytes = (mask, bytes)
pack_loop (suc k) i guid mask bytes = elim (guid == 0) [
  | true ↦ (mask, bytes)
  | false ↦ elim (bit_and guid 0xFF == 0) [
    | true ↦ pack_loop k (suc i) (guid / 2 ^ 8) mask bytes
    | false ↦
        pack_loop k (suc i) (guid / 2 ^ 8) (bit_or mask (1 * 2 ^ i % 2 ^ 8))
          (bytes ++ (bit_and guid 0xFF ∷ []))
  ]
]

unfoldable pub append_pack_guid : ℕ → M (Unit {0})
unfolding pack_loop
append_pack_guid guid = let (mask, bytes) = pack_loop 8 0 guid 0 [] in append (mask ∷ bytes)

-- `if (rpos() + 1 > size()) throw …`
unfoldable pub require_byte : M (Unit {0})
require_byte b =
    if ltb (size b) (add64 b.rpos 1)
    then (throw (position false b.rpos 1 (size b)), b)
    else (ok tt, b)

-- `for (int i = 0; i < 8; ++i)`, with k rounds left.
unfoldable pub unpack_loop : ℕ → ℕ → ℕ → ℕ → M ℕ
unpack_loop zero i mark guid = pure guid
unpack_loop (suc k) i mark guid = elim (bit_and mark (2 ^ i) == 0) [
  | true ↦ unpack_loop k (suc i) mark guid
  | false ↦ do
    require_byte
    bit ← read_uint 1
    unpack_loop k (suc i) mark (bit_or guid (bit * 2 ^ (i * 8) % 2 ^ 64))
]

unfoldable pub read_pack_guid : M ℕ
unfolding require_byte unpack_loop
read_pack_guid = do require_byte; mark ← read_uint 1; unpack_loop 8 0 mark 0

-- The independent description: which of the k low bytes are not zero, and those bytes.
pub mask_of : ℕ → ℕ → ℕ
mask_of zero g = 0
mask_of (suc k) g = (if g % 256 == 0 then 0 else 1) + 2 * mask_of k (g / 256)

pub bytes_of : ℕ → ℕ → List ℕ
bytes_of zero g = []
bytes_of (suc k) g = if g % 256 == 0 then bytes_of k (g / 256) else (g % 256) ∷ bytes_of k (g / 256)

mask_of-zero : (k : ℕ) → mask_of k 0 ≡ 0
unfolding mask_of
mask_of-zero zero = refl
mask_of-zero (suc k) = omega (arith, mask_of-zero k)

bytes_of-zero : (k : ℕ) → bytes_of k 0 ≡ []
unfolding bytes_of
bytes_of-zero zero = refl
bytes_of-zero (suc k) = bytes_of-zero k

mask_of_lt : (k g : ℕ) → mask_of k g < 2 ^ k
unfolding mask_of
mask_of_lt zero g = omega arith
mask_of_lt (suc k) g = ground (arith, pow-suc 2 k, mask_of_lt k (g / 256))

-- The arithmetic of one round: i bits are done, and k + 1 are left.
module _ (i k : ℕ) (hi : 2 ^ i * 2 ^ suc k ≡ 2 ^ 8) where
  next_bit : 2 ^ suc i * 2 ^ k ≡ 2 ^ 8
  next_bit = rw (pow-suc 2 i) (omega (arith, rw (pow-suc 2 k) at hi))

  bit_small : 1 * 2 ^ i % 2 ^ 8 ≡ 1 * 2 ^ i
  bit_small =
      omega
        (arith, le-mul_of_pos_right (2 ^ i) (two_pow_pos k), rw (pow-suc 2 k) at hi, two_pow_pos i)

  set_bit : (mask : ℕ) → mask < 2 ^ i → bit_or mask (1 * 2 ^ i % 2 ^ 8) ≡ mask + 2 ^ i
  set_bit mask hm = rw bit_small (bit_or_above i 1 mask hm ∙ omega arith)

low_byte : (g : ℕ) → bit_and g 0xFF ≡ g % 256
low_byte g = bit_and_mask 8 g

-- One round of the writer on a number that is not zero.
module _ (k i g mask : ℕ) (bytes : List ℕ) (nz : (g == 0) ≡ false) where
  pack_skips :
      (g % 256 == 0) ≡ true
      → pack_loop (suc k) i g mask bytes ≡ pack_loop k (suc i) (g / 256) mask bytes
  unfolding pack_loop
  pack_skips e = ground (arith, low_byte g)

  pack_keeps :
      (g % 256 == 0) ≡ false
      → 2 ^ i * 2 ^ suc k ≡ 2 ^ 8
      → mask < 2 ^ i
      → pack_loop (suc k) i g mask bytes
        ≡ pack_loop k (suc i) (g / 256) (mask + 2 ^ i) (bytes ++ (g % 256 ∷ []))
  unfolding pack_loop
  pack_keeps e hi hm = ground (arith, low_byte g, set_bit i k hi mask hm)

pack_loop_lem :
    (k i g mask : ℕ) (bytes : List ℕ)
    → g < 256 ^ k
    → 2 ^ i * 2 ^ k ≡ 2 ^ 8
    → mask < 2 ^ i
    → pack_loop k i g mask bytes ≡ (mask + mask_of k g * 2 ^ i, bytes ++ bytes_of k g)
unfolding mask_of bytes_of
pack_loop_lem zero i g mask bytes hg hi hm =
    unfold pack_loop in ap₂ (λ a l. (a, l)) (omega arith) (sym (append-nil bytes))
pack_loop_lem (suc k) i g mask bytes hg hi hm = elim (Bool-cases (g == 0)) [
  | inl z ↦
      rw ((==_iff g 0).0 z, mask_of-zero k, bytes_of-zero k)
        (unfold pack_loop in ap₂ (λ a l. (a, l)) (omega arith) (sym (append-nil bytes)))
  | inr nz ↦ elim (Bool-cases (g % 256 == 0)) [
    | inl e ↦
        pack_skips k i g mask bytes nz e
        ∙ pack_loop_lem k (suc i) (g / 256) mask bytes rest_small (next_bit i k hi)
            (omega (arith, pow-suc 2 i))
        ∙ rw e (ap (λ a. (a, bytes ++ bytes_of k (g / 256))) (rw (pow-suc 2 i) (omega arith)))
    | inr e ↦
        pack_keeps k i g mask bytes nz e hi hm
        ∙ pack_loop_lem k (suc i) (g / 256) (mask + 2 ^ i) (bytes ++ (g % 256 ∷ [])) rest_small
            (next_bit i k hi) (omega (arith, pow-suc 2 i))
        ∙ rw e (
            ap₂ (λ a l. (a, l)) (rw (pow-suc 2 i) (omega arith))
              (append_assoc bytes (g % 256 ∷ []) (bytes_of k (g / 256))))
  ]
]
  where
    rest_small : g / 256 < 256 ^ k
    rest_small = omega (arith, pow-suc 256 k)

-- One round of the reader.
module _ (k i mark acc : ℕ) (b : ByteBuffer) where
  unpack_skips :
      mark / 2 ^ i % 2 ≡ 0 → unpack_loop (suc k) i mark acc b ≡ unpack_loop k (suc i) mark acc b
  unfolding unpack_loop
  unpack_skips e = ground (arith, bit_and_bit i mark, ap (λ t. t * 2 ^ i) e)

  unpack_reads :
      (x : ℕ) (rest : List ℕ)
      → mark / 2 ^ i % 2 ≡ 1
      → IsValid b
      → unread b ≡ x ∷ rest
      → unpack_loop (suc k) i mark acc b
        ≡ unpack_loop k (suc i) mark (bit_or acc (x * 2 ^ (i * 8) % 2 ^ 64)) (past 1 b)
  unfolding unpack_loop require_byte
  unpack_reads x rest e v eq = ground (
    arith,
    bit_and_bit i mark,
    ap (λ t. t * 2 ^ i) e,
    two_pow_pos i,
    room,
    read_byte x rest b v eq,
  )
    where
      room : ltb (size b) (add64 b.rpos 1) ≡ false
      room = le→ltb _ _ (omega (arith, length-unread b v, ap length eq))

shift_eight : (i : ℕ) → 2 ^ (suc i * 8) ≡ 256 * 2 ^ (i * 8)
shift_eight i = ap (λ (n : ℕ). 2 ^ n) (omega arith) ∙ shift (i * 8)
  where
    shift : (s : ℕ) → 2 ^ (s + 8) ≡ 256 * 2 ^ s
    shift s = simp towards_suc (omega arith)

-- The arithmetic of one round of the reader, where k + 1 bytes are left from byte i on.
module _ (i k g acc : ℕ) (hi : 2 ^ (i * 8) * 256 ^ suc k ≡ 2 ^ 64) where
  next_byte : 2 ^ (suc i * 8) * 256 ^ k ≡ 2 ^ 64
  next_byte = rw (shift_eight i) (omega (arith, rw (pow-suc 256 k) at hi))

  byte_below : g % 256 * 2 ^ (i * 8) ≤ 255 * 2 ^ (i * 8)
  byte_below = mul-le-mul_right {m = g % 256} {n = 255} (2 ^ (i * 8)) (omega arith)

  byte_fits : g % 256 * 2 ^ (i * 8) % 2 ^ 64 ≡ g % 256 * 2 ^ (i * 8)
  byte_fits = omega (
    arith,
    byte_below,
    two_pow_pos (i * 8),
    le-mul_of_pos_right (2 ^ (i * 8)) (pow_pos k),
    rw (pow-suc 256 k) at hi,
  )
    where
      pow_pos : (n : ℕ) → 0 < 256 ^ n
      pow_pos zero = omega arith
      pow_pos (suc n) = omega (arith, pow-suc 256 n, pow_pos n)

  put_byte :
      acc < 2 ^ (i * 8) → bit_or acc (g % 256 * 2 ^ (i * 8) % 2 ^ 64) ≡ acc + g % 256 * 2 ^ (i * 8)
  put_byte h = rw byte_fits (bit_or_above (i * 8) (g % 256) acc h)

  sum_bytes : acc + g % 256 * 2 ^ (i * 8) + g / 256 * 2 ^ (suc i * 8) ≡ acc + g * 2 ^ (i * 8)
  sum_bytes =
      rw (shift_eight i) (omega (arith, ap (λ (t : ℕ). t * 2 ^ (i * 8)) (div-add-mod g 256)))

next_mark : (mark i : ℕ) → mark / 2 ^ suc i ≡ mark / 2 ^ i / 2
next_mark mark i = rw (pow-suc 2 i) (sym (div-div-eq-div-mul mark (2 ^ i) 2))

unpack_loop_lem :
    (k i g mark acc : ℕ) (b : ByteBuffer) (rest : List ℕ)
    → g < 256 ^ k
    → 2 ^ (i * 8) * 256 ^ k ≡ 2 ^ 64
    → acc < 2 ^ (i * 8)
    → mark / 2 ^ i ≡ mask_of k g
    → IsValid b
    → unread b ≡ bytes_of k g ++ rest
    → unpack_loop k i mark acc b ≡ (ok (acc + g * 2 ^ (i * 8)), past (length (bytes_of k g)) b)
unfolding mask_of bytes_of
unpack_loop_lem zero i g mark acc b rest hg hi ha hm v e =
    let z : g ≡ 0 = omega arith in
    unfold unpack_loop in rw z (ap₂ (λ n c. (ok n, c)) (omega arith) (sym (past_zero b)))
unpack_loop_lem (suc k) i g mark acc b rest hg hi ha hm v e = elim (Bool-cases (g % 256 == 0)) [
  | inl z ↦
      unpack_skips k i mark acc b (omega (arith, rw z at hm))
      ∙ unpack_loop_lem k (suc i) (g / 256) mark acc b rest rest_small (next_byte i k g acc hi)
          (omega (arith, shift_eight i)) (next_mark mark i ∙ omega (arith, rw z at hm)) v
          (rw z at e)
      ∙ rw z (
          ap (λ n. (ok n, past (length (bytes_of k (g / 256))) b))
            (omega
              (arith, sum_bytes i k g acc hi, ap (λ (t : ℕ). t * 2 ^ (i * 8)) ((==_iff _ 0).0 z))))
  | inr nz ↦
      unpack_reads k i mark acc b (g % 256) (bytes_of k (g / 256) ++ rest)
        (omega (arith, rw nz at hm)) v (rw nz at e)
      ∙ ap (λ n. unpack_loop k (suc i) mark n (past 1 b)) (put_byte i k g acc hi ha)
      ∙ (unpack_loop_lem k (suc i) (g / 256) mark (acc + g % 256 * 2 ^ (i * 8)) (past 1 b) rest
          rest_small (next_byte i k g acc hi)
          (omega (arith, shift_eight i, byte_below i k g acc hi, two_pow_pos (i * 8)))
          (next_mark mark i ∙ omega (arith, rw nz at hm))
          (past-IsValid 1 b v (omega (arith, ap length (rw nz at e))))
          (unread-past 1 b (g % 256 ∷ []) (bytes_of k (g / 256) ++ rest) (rw nz at e) refl))
      ∙ rw nz (
          ap₂ (λ n c. (ok n, c)) (sum_bytes i k g acc hi)
            (past-past 1 (length (bytes_of k (g / 256))) (suc (length (bytes_of k (g / 256)))) b
              (omega arith)))
]
  where
    rest_small : g / 256 < 256 ^ k
    rest_small = omega (arith, pow-suc 256 k)

-- The packed form of a 64-bit number.
abbrev pub packed : ℕ → List ℕ
packed g = mask_of 8 g ∷ bytes_of 8 g

length-bytes_of : (k g : ℕ) → length (bytes_of k g) ≤ k
unfolding bytes_of
length-bytes_of zero g = omega arith
length-bytes_of (suc k) g = ground (arith, length-bytes_of k (g / 256))

append_pack_guid_lem :
    (g : ℕ) (b : ByteBuffer)
    → g < 2 ^ 64
    → AtEnd b
    → size b < 1000000
    → append_pack_guid g b ≡ (ok tt, extended b (packed g))
unfolding append_pack_guid
append_pack_guid_lem g b hg a hb = rw (pack_loop_lem 8 0 g 0 [] (omega arith) refl (omega arith)) (
    ap (λ n. append (n ∷ bytes_of 8 g) b) (omega arith)
    ∙ append_extends b (packed g) a (omega arith) (omega (arith, length-bytes_of 8 g)))

read_pack_guid_lem :
    (g : ℕ) (b : ByteBuffer) (rest : List ℕ)
    → g < 2 ^ 64
    → IsValid b
    → unread b ≡ packed g ++ rest
    → read_pack_guid b ≡ (ok g, past (length (packed g)) b)
unfolding read_pack_guid
read_pack_guid_lem g b rest hg v e = ground (
  arith,
  room,
  read_byte (mask_of 8 g) (bytes_of 8 g ++ rest) b v e,
  unpack_loop_lem 8 0 g (mask_of 8 g) 0 (past 1 b) rest (omega arith) refl (omega arith)
      (omega arith) (past-IsValid 1 b v (omega (arith, ap length e)))
      (unread-past 1 b (mask_of 8 g ∷ []) (bytes_of 8 g ++ rest) e refl),
  past-past 1 (length (bytes_of 8 g)) (suc (length (bytes_of 8 g))) b (omega arith),
)
  where
    room : ltb (size b) (add64 b.rpos 1) ≡ false
    room = le→ltb _ _ (omega (arith, length-unread b v, ap length e))

-- `readPackGUID` reads back what `appendPackGUID` wrote for any 64-bit number. The form is exactly
-- the mask of the non-zero bytes and those bytes, lowest first, so at most nine bytes, and reading
-- passes all of them.
pub read_pack_guid-append_pack_guid :
    (g : ℕ)
    → g < 2 ^ 64
    → let (written, sent) = append_pack_guid g empty_buffer in
      let (value, b) = read_pack_guid (received sent) in
      (written ≡ ok tt)
      × (sent.storage ≡ packed g)
      × (length (packed g) ≤ 9)
      × (value ≡ ok g)
      × (b.rpos ≡ size b)
read_pack_guid-append_pack_guid g h =
    rw
      (
        append_pack_guid_lem g empty_buffer h (omega arith) (omega arith),
        read_pack_guid_lem g (received (extended empty_buffer (packed g))) [] h
            (omega (arith, length-bytes_of 8 g)) (sym (append-nil (packed g))),
      )
      (refl, refl, omega (arith, length-bytes_of 8 g), refl, omega arith)
