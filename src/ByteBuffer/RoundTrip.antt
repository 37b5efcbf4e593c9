-- ===== src/ByteBuffer/RoundTrip.antt =====
-- Writing a sequence of typed values by `operator<<` and reading them back by `operator>>`
-- (ByteBuffer.h), as the two ends of a connection do with a packet.
use warhead_discord_client.Common.{
  ℕ, ◌+◌, ◌^◌, ◌<◌, ◌≡◌, ◌≢◌, refl, sym, ap, ap₂, ◌∙◌, Bool, true, false, List, [], ◌∷◌, ◌++◌,
  append_assoc, append-nil, map, arith, length, length-append, All,
}
use warhead_discord_client.Common.Bytes.{le_bytes, length-le_bytes}
use warhead_discord_client.ByteBuffer.State.{ByteBuffer, M, ok, pure, ◌>>=◌, ◌>>◌}
use warhead_discord_client.ByteBuffer.Store.{IsValid, append_at_end}
use warhead_discord_client.ByteBuffer.{
  size, empty_buffer, append, append_uint, append_bool, append_string, read_uint, read_bool,
}
use warhead_discord_client.ByteBuffer.Integers.{
  unread, past, past-IsValid, unread-past, read_uint-le_bytes,
}
use warhead_discord_client.ByteBuffer.CString.{
  read_string, read_cstring_lem, until_zero, taken, until_zero-append, taken-append, NonZero,
  past_zero, past-past,
}

-- A value of an unsigned type of some width, a `bool`, or a `std::string`.
pub data Field : Type 0 where
  uint : (width value : ℕ) → Field
  flag : Bool → Field
  text : List ℕ → Field

pub data Kind : Type 0 where
  uint_kind : ℕ → Kind
  flag_kind text_kind : Kind

abbrev pub kind : Field → Kind
kind (uint w v) = uint_kind w
kind (flag v) = flag_kind
kind (text s) = text_kind

unfoldable pub write_field : Field → M (Unit {0})
write_field (uint w v) = append_uint w v
write_field (flag v) = append_bool v
write_field (text s) = append_string s

unfoldable pub write_fields : List Field → M (Unit {0})
write_fields [] = pure tt
write_fields (f ∷ fs) = do write_field f; write_fields fs

module _ (is_valid : List ℕ → Bool) where
  unfoldable pub read_field : Kind → M Field
  read_field (uint_kind w) = do v ← read_uint w; pure (uint w v)
  read_field flag_kind = do v ← read_bool; pure (flag v)
  read_field text_kind = do s ← read_string is_valid; pure (text s)

  unfoldable pub read_fields : List Kind → M (List Field)
  read_fields [] = pure []
  read_fields (k ∷ ks) = do f ← read_field k; fs ← read_fields ks; pure (f ∷ fs)

  -- The values of a type, and the texts that survive: no zero byte inside, and valid UTF-8.
  abbrev pub Fits : Field → Type 0
  Fits (uint w v) = (w ≢ 0) × (v < 256 ^ w)
  Fits (flag v) = Unit {0}
  Fits (text s) = All NonZero s × (is_valid s ≡ true)

abbrev pub encode : Field → List ℕ
encode (uint w v) = le_bytes w v
encode (flag true) = 1 ∷ []
encode (flag false) = 0 ∷ []
encode (text s) = s ++ (0 ∷ [])

abbrev pub encode_all : List Field → List ℕ
encode_all [] = []
encode_all (f ∷ fs) = encode f ++ encode_all fs

-- The buffer with bytes put behind its storage.
abbrev pub extended : ByteBuffer → List ℕ → ByteBuffer
extended b src = record b { wpos = b.wpos + length src; storage = b.storage ++ src }

-- The buffer that `ByteBuffer(MessageBuffer&&)` makes of the same bytes at the other end.
abbrev pub received : ByteBuffer → ByteBuffer
received b = record { rpos = 0; wpos = 0; storage = b.storage }

pub record AtEnd (b : ByteBuffer) : Type 0 where
  pub valid : IsValid b
  pub at_end : b.wpos ≡ size b

pub extended-extended :
    (b : ByteBuffer) (xs ys : List ℕ) → extended (extended b xs) ys ≡ extended b (xs ++ ys)
extended-extended b xs ys =
    ap₂ (λ w l. record b { wpos = w; storage = l }) (omega (arith, length-append xs ys))
      (append_assoc b.storage xs ys)

extended-nil : (b : ByteBuffer) → extended b [] ≡ b
extended-nil b =
    ap₂ (λ w l. record b { wpos = w; storage = l }) (omega arith) (append-nil b.storage)

pub extended-AtEnd :
    (b : ByteBuffer) (src : List ℕ)
    → AtEnd b
    → size b + length src < 2 ^ 61
    → AtEnd (extended b src)
extended-AtEnd b src a h = omega (arith, a.valid.read_in, a.at_end, length-append b.storage src)

pub append_extends :
    (b : ByteBuffer) (src : List ℕ)
    → AtEnd b
    → length src ≢ 0
    → size b + length src < 10000001
    → append src b ≡ (ok tt, extended b src)
append_extends b src a ne h = append_at_end b src a.valid a.at_end ne (omega arith) (omega arith)

append_string_extends :
    (b : ByteBuffer) (s : List ℕ)
    → AtEnd b
    → size b + length s < 10000000
    → append_string s b ≡ (ok tt, extended b (s ++ (0 ∷ [])))
unfolding append_string
append_string_extends b [] a h = append_extends b (0 ∷ []) a (omega arith) (omega arith)
append_string_extends b (x ∷ s) a h = ground (
  arith,
  append_extends b (x ∷ s) a (omega arith) (omega arith),
  append_extends (extended b (x ∷ s)) (0 ∷ []) (extended-AtEnd b (x ∷ s) a (omega arith))
      (omega arith) (omega (arith, length-append b.storage (x ∷ s))),
  extended-extended b (x ∷ s) (0 ∷ []),
)

module _ (is_valid : List ℕ → Bool) where
  write_field_extends :
      (f : Field) (b : ByteBuffer)
      → AtEnd b
      → Fits is_valid f
      → size b + length (encode f) < 10000001
      → write_field f b ≡ (ok tt, extended b (encode f))
  unfolding write_field append_uint append_bool le_bytes
  write_field_extends (uint w v) b a (hw, hv) h =
      append_extends b (le_bytes w v) a (omega (arith, length-le_bytes w v)) h
  write_field_extends (flag true) b a fits h = append_extends b (1 ∷ []) a (omega arith) h
  write_field_extends (flag false) b a fits h = append_extends b (0 ∷ []) a (omega arith) h
  write_field_extends (text s) b a fits h =
      append_string_extends b s a (omega (arith, length-append s (0 ∷ [])))

  -- Writing appends the encodings one after the other.
  pub write_fields_extend :
      (fs : List Field) (b : ByteBuffer)
      → AtEnd b
      → All (Fits is_valid) fs
      → size b + length (encode_all fs) < 10000001
      → write_fields fs b ≡ (ok tt, extended b (encode_all fs))
  unfolding write_fields
  write_fields_extend [] b a fits h = ap (λ c. (ok tt, c)) (sym (extended-nil b))
  write_fields_extend (f ∷ fs) b a (hf, hfs) h = ground (
    arith,
    write_field_extends f b a hf (omega (arith, length-append (encode f) (encode_all fs))),
    write_fields_extend fs (extended b (encode f))
        (extended-AtEnd b (encode f) a (omega (arith, length-append (encode f) (encode_all fs))))
        hfs
        (omega
          (arith, length-append (encode f) (encode_all fs), length-append b.storage (encode f))),
    extended-extended b (encode f) (encode_all fs),
  )

  read_field_lem :
      (f : Field) (b : ByteBuffer) (rest : List ℕ)
      → IsValid b
      → Fits is_valid f
      → unread b ≡ encode f ++ rest
      → read_field is_valid (kind f) b ≡ (ok f, past (length (encode f)) b)
  unfolding read_field read_bool read_string le_bytes
  read_field_lem (uint w v) b rest val (hw, hv) e =
      ground (arith, read_uint-le_bytes w v b rest val hv e, length-le_bytes w v)
  read_field_lem (flag true) b rest val fits e =
      ground (arith, read_uint-le_bytes 1 1 b rest val (omega arith) e)
  read_field_lem (flag false) b rest val fits e =
      ground (arith, read_uint-le_bytes 1 0 b rest val (omega arith) e)
  read_field_lem (text s) b rest val (hz, hu) e = ground (
    arith,
    read_cstring_lem is_valid true b val,
    ap until_zero whole ∙ until_zero-append s rest hz,
    ap taken whole ∙ taken-append s rest hz,
    length-append s (0 ∷ []),
  )
    where
      whole : unread b ≡ s ++ (0 ∷ rest)
      whole = e ∙ append_assoc s (0 ∷ []) rest

  read_fields_lem :
      (fs : List Field) (b : ByteBuffer) (rest : List ℕ)
      → IsValid b
      → All (Fits is_valid) fs
      → unread b ≡ encode_all fs ++ rest
      → read_fields is_valid (map kind fs) b ≡ (ok fs, past (length (encode_all fs)) b)
  unfolding read_fields
  read_fields_lem [] b rest val fits e = ap (λ c. (ok [], c)) (sym (past_zero b))
  read_fields_lem (f ∷ fs) b rest val (hf, hfs) e = ground (
    arith,
    read_field_lem f b (encode_all fs ++ rest) val hf whole,
    read_fields_lem fs (past (length (encode f)) b) rest
        (past-IsValid (length (encode f)) b val
          (omega (arith, ap length whole, length-append (encode f) (encode_all fs ++ rest))))
        hfs (unread-past (length (encode f)) b (encode f) (encode_all fs ++ rest) whole refl),
    past-past (length (encode f)) (length (encode_all fs)) (length (encode (f) ++ encode_all fs)) b
        (length-append (encode f) (encode_all fs)),
  )
    where
      whole : unread b ≡ encode f ++ (encode_all fs ++ rest)
      whole = e ∙ append_assoc (encode f) (encode_all fs) rest

  -- What `operator<<` writes into a fresh buffer without fail, `operator>>` reads back at the other
  -- end: the same values in the same order, with every byte read. The values fit their types, texts
  -- are UTF-8 without a zero byte, and the packet stays within the ten million bytes that `append`
  -- accepts.
  pub read_fields-write_fields :
      (fs : List Field)
      → All (Fits is_valid) fs
      → length (encode_all fs) < 10000001
      → let (written, sent) = write_fields fs empty_buffer in
        let (values, b) = read_fields is_valid (map kind fs) (received sent) in
        (written ≡ ok tt) × (values ≡ ok fs) × (b.rpos ≡ size b)
  read_fields-write_fields fs fits h =
      rw
        (
          write_fields_extend fs empty_buffer (omega arith) fits (omega arith),
          read_fields_lem fs (received (extended empty_buffer (encode_all fs))) [] (omega arith)
              fits (sym (append-nil (encode_all fs))),
        )
        (refl, refl, omega arith)
