-- ===== src/ByteBuffer/CString.antt =====
-- `ByteBuffer::ReadCString` (ByteBuffer.cpp) and the members that are defined by it.
use warhead_discord_client.Common.{
  ℕ, zero, suc, ◌+◌, ◌-◌, ◌≡◌, ◌≢◌, All, ==_iff, refl, sym, ap, ap₂, ◌∙◌, Bool, true, false, not,
  ◌&&◌, List, [], ◌∷◌, ◌++◌, append_assoc, append-nil, inl, inr, arith, length, ltb, lt→ltb, ◌==◌,
  if◌then◌else◌, Bool-cases,
}
use warhead_discord_client.Common.Bytes.{le_value}
use warhead_discord_client.ByteBuffer.State.{ByteBuffer, M, ok, throw, invalid_value, pure, ◌>>=◌}
use warhead_discord_client.ByteBuffer.Store.{IsValid}
use warhead_discord_client.ByteBuffer.{size, read_uint}
use warhead_discord_client.ByteBuffer.Integers.{
  unread, past, length-unread, past-IsValid, unread-past, read_uint_lem,
}

-- `while (rpos() < size())`: each round reads a byte, so the bytes that are left bound the rounds.
unfoldable pub read_cstring_loop : ℕ → List ℕ → M (List ℕ)
read_cstring_loop zero value b = (ok value, b)
read_cstring_loop (suc fuel) value b = elim (ltb b.rpos (size b)) [
  | false ↦ (ok value, b)
  | true ↦
      (do
        c ← read_uint 1
        elim (c == 0) [ true ↦ pure value | false ↦ read_cstring_loop fuel (value ++ (c ∷ [])) ])
        b
]

-- `is_valid` is `utf8::is_valid`.
module _ (is_valid : List ℕ → Bool) where
  unfoldable pub read_cstring : Bool → M (List ℕ)
  unfolding read_cstring_loop
  read_cstring require_valid_utf8 b =
      (do
        value ← read_cstring_loop (size b - b.rpos) []
        if require_valid_utf8 && not (is_valid value)
            then (λ b'. (throw (invalid_value value), b'))
            else pure value)
        b

  -- `operator>>(std::string&)`
  unfoldable pub read_string : M (List ℕ)
  unfolding read_cstring
  read_string = read_cstring true

  -- `read_skip<std::string>`, `read_skip<char*>` and `read_skip<char const*>`
  unfoldable pub skip_string : M (Unit {0})
  unfolding read_string
  skip_string = do s ← read_string; pure tt

-- The characters before the first zero byte, or all if there is none.
unfoldable pub until_zero : List ℕ → List ℕ
until_zero [] = []
until_zero (x ∷ xs) = if x == 0 then [] else x ∷ until_zero xs

-- How many bytes that takes, with the zero byte if there is one.
unfoldable pub taken : List ℕ → ℕ
taken [] = 0
taken (x ∷ xs) = if x == 0 then 1 else suc (taken xs)

abbrev pub NonZero : ℕ → Type 0
NonZero x = x ≢ 0

pub past_zero : (b : ByteBuffer) → past 0 b ≡ b
past_zero b = ap (λ r. record b { rpos = r }) (omega arith)

pub past-past : (m n k : ℕ) (b : ByteBuffer) → k ≡ m + n → past n (past m b) ≡ past k b
past-past m n k b e = ap (λ r. record b { rpos = r }) (omega arith)

one_byte : (x : ℕ) → le_value (x ∷ []) ≡ x
unfolding le_value
one_byte x = omega arith

pub read_byte :
    (x : ℕ) (xs : List ℕ) (b : ByteBuffer)
    → IsValid b
    → unread b ≡ x ∷ xs
    → read_uint 1 b ≡ (ok x, past 1 b)
read_byte x xs b v e =
    read_uint_lem 1 b (x ∷ []) xs v e refl ∙ ap (λ k. (ok k, past 1 b)) (one_byte x)

module _ (fuel x : ℕ) (xs value : List ℕ) (b : ByteBuffer) (v : IsValid b)
    (e : unread b ≡ x ∷ xs) where
  in_range : ltb b.rpos (size b) ≡ true
  in_range = lt→ltb _ _ (omega (arith, length-unread b v, ap length e))

  loop_stops : x ≡ 0 → read_cstring_loop (suc fuel) value b ≡ (ok value, past 1 b)
  unfolding read_cstring_loop
  loop_stops z = ground (arith, in_range, read_byte x xs b v e)

  loop_goes_on :
      (x == 0) ≡ false
      → read_cstring_loop (suc fuel) value b ≡ read_cstring_loop fuel (value ++ (x ∷ [])) (past 1 b)
  unfolding read_cstring_loop
  loop_goes_on z = ground (arith, in_range, read_byte x xs b v e)

pub read_cstring_loop_lem :
    (xs value : List ℕ) (b : ByteBuffer)
    → IsValid b
    → unread b ≡ xs
    → read_cstring_loop (length xs) value b ≡ (ok (value ++ until_zero xs), past (taken xs) b)
unfolding until_zero taken
read_cstring_loop_lem [] value b v e =
    unfold read_cstring_loop in ap₂ (λ l c. (ok l, c)) (sym (append-nil value)) (sym (past_zero b))
read_cstring_loop_lem (x ∷ xs) value b v e = elim (Bool-cases (x == 0)) [
  | inl z ↦
      loop_stops (length xs) x xs value b v e ((==_iff x 0).0 z)
      ∙ rw z (ap (λ l. (ok l, past 1 b)) (sym (append-nil value)))
  | inr nz ↦
      loop_goes_on (length xs) x xs value b v e nz
      ∙ read_cstring_loop_lem xs (value ++ (x ∷ [])) (past 1 b)
          (past-IsValid 1 b v (omega (arith, ap length e))) (unread-past 1 b (x ∷ []) xs e refl)
      ∙ rw nz (
          ap₂ (λ l c. (ok l, c)) (append_assoc value (x ∷ []) (until_zero xs))
            (past-past 1 (taken xs) (suc (taken xs)) b (omega arith)))
]

-- `ReadCString` on a valid buffer: the text up to the first zero byte, or to the end. It throws
-- exactly when the text has to be UTF-8 and is not; the read position moves either way, behind the
-- zero byte if there is one.
pub read_cstring_lem :
    (is_valid : List ℕ → Bool) (require : Bool) (b : ByteBuffer)
    → IsValid b
    → let text = until_zero (unread b) in
      read_cstring is_valid require b ≡ (
        if require && not (is_valid text) then throw (invalid_value text) else ok text,
        past (taken (unread b)) b,
      )
unfolding read_cstring
read_cstring_lem is_valid require b v = ground (arith, loop)
  where
    fuel : size b - b.rpos ≡ length (unread b)
    fuel = omega (arith, length-unread b v)

    loop :
        read_cstring_loop (size b - b.rpos) [] b
        ≡ (ok (until_zero (unread b)), past (taken (unread b)) b)
    loop = rw fuel (read_cstring_loop_lem (unread b) [] b v refl)

-- A text without a zero byte, followed by one, is read back whole.
pub until_zero-append :
    (text rest : List ℕ) → All NonZero text → until_zero (text ++ (0 ∷ rest)) ≡ text
unfolding until_zero
until_zero-append [] rest h = refl
until_zero-append (x ∷ text) rest (hx, h) = ground (arith, until_zero-append text rest h)

pub taken-append :
    (text rest : List ℕ) → All NonZero text → taken (text ++ (0 ∷ rest)) ≡ length text + 1
unfolding taken
taken-append [] rest h = refl
taken-append (x ∷ text) rest (hx, h) = ground (arith, taken-append text rest h)
