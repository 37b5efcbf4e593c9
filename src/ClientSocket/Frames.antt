-- ===== src/ClientSocket/Frames.antt =====
-- src/client/Client/ClientSocket.cpp: what `ReadHandler` is meant to cut out of the received bytes. A
-- frame is a header of six bytes and the payload whose length the header names; `frame` reads one from
-- any bytes, of which some may have come earlier.
use warhead_discord_client.Common.{
  ℕ, ◌-◌, ◌≤◌, ◌<◌, ◌≡◌, refl, sym, ap, ap₂, ◌∙◌, Bool, true, false, ◌&&◌, ltb, if◌then◌else◌, List,
  ◌++◌, append_assoc, arith, length, take, drop, length-append, take-append_le, drop-append_le,
  dec_lt,
}
use warhead_discord_client.PacketHeader.{
  ClientHeader, header_at, endian_convert_reverse, is_valid_size, is_valid_opcode,
}

-- A frame that is not complete: the bytes of its header, or its opcode, the length of its payload, and
-- the bytes of the payload.
pub data Partial : Type 0 where
  in_header : List ℕ → Partial
  in_payload : (cmd length : ℕ) → List ℕ → Partial

-- What bytes come to: a frame that is not complete, a header that is refused, or a whole frame and
-- the bytes behind it.
pub data Frame : Type 0 where
  incomplete : Partial → Frame
  malformed : Frame
  whole : (cmd : ℕ) (payload rest : List ℕ) → Frame

unfoldable pub frame_payload : ℕ → ℕ → List ℕ → Frame
frame_payload cmd k bytes =
    if ltb (length bytes) k
    then incomplete (in_payload cmd k bytes)
    else whole cmd (take k bytes) (drop k bytes)

-- The header with its size as a number.
unfoldable pub converted : List ℕ → ClientHeader
converted bytes = record (header_at bytes) { size = endian_convert_reverse (header_at bytes).size }

abbrev pub is_accepted : ClientHeader → Bool
is_accepted h = is_valid_size h && is_valid_opcode h

abbrev pub accept : Bool → ClientHeader → List ℕ → Frame
accept accepted h bytes = if accepted then frame_payload h.cmd (h.size - 2) bytes else malformed

unfoldable pub frame_header : List ℕ → Frame
unfolding converted frame_payload is_valid_size is_valid_opcode
frame_header bytes =
    if ltb (length bytes) 6
    then incomplete (in_header bytes)
    else accept (is_accepted (converted (take 6 bytes))) (converted (take 6 bytes)) (drop 6 bytes)

unfoldable pub frame : Partial → List ℕ → Frame
unfolding frame_header frame_payload
frame (in_header bytes) input = frame_header (bytes ++ input)
frame (in_payload cmd k bytes) input = frame_payload cmd k (bytes ++ input)

module _ (cmd k : ℕ) (bytes : List ℕ) where
  pub frame_payload-short :
      length bytes < k → frame_payload cmd k bytes ≡ incomplete (in_payload cmd k bytes)
  unfolding frame_payload
  frame_payload-short h = ground arith

  pub frame_payload-whole :
      k ≤ length bytes → frame_payload cmd k bytes ≡ whole cmd (take k bytes) (drop k bytes)
  unfolding frame_payload
  frame_payload-whole h = ground arith

pub frame_header-short :
    (bytes : List ℕ) → length bytes < 6 → frame_header bytes ≡ incomplete (in_header bytes)
unfolding frame_header
frame_header-short bytes h = ground arith

pub frame_header-whole :
    (bytes : List ℕ)
    → 6 ≤ length bytes
    → frame_header bytes
      ≡ accept (is_accepted (converted (take 6 bytes))) (converted (take 6 bytes)) (drop 6 bytes)
unfolding frame_header
frame_header-whole bytes h = ground arith

-- More bytes behind those that were framed.
abbrev pub then_more : Frame → List ℕ → Frame
then_more (incomplete p) more = frame p more
then_more malformed more = malformed
then_more (whole cmd payload rest) more = whole cmd payload (rest ++ more)

frame_payload-append :
    (cmd k : ℕ) (bytes more : List ℕ)
    → frame_payload cmd k (bytes ++ more) ≡ then_more (frame_payload cmd k bytes) more
unfolding frame
frame_payload-append cmd k bytes more = elim (dec_lt (length bytes) k) [
  | yes h ↦ ap (λ f. then_more f more) (sym (frame_payload-short cmd k bytes h))
  | no h ↦
      frame_payload-whole cmd k (bytes ++ more) (omega (arith, length-append bytes more))
      ∙ ap₂ (whole cmd) (take-append_le k bytes more (omega arith))
          (drop-append_le k bytes more (omega arith))
      ∙ ap (λ f. then_more f more) (sym (frame_payload-whole cmd k bytes (omega arith)))
]

accept-append :
    (accepted : Bool) (h : ClientHeader) (bytes more : List ℕ)
    → accept accepted h (bytes ++ more) ≡ then_more (accept accepted h bytes) more
accept-append true h bytes more = frame_payload-append h.cmd (h.size - 2) bytes more
accept-append false h bytes more = refl

frame_header-append :
    (bytes more : List ℕ) → frame_header (bytes ++ more) ≡ then_more (frame_header bytes) more
unfolding frame
frame_header-append bytes more = elim (dec_lt (length bytes) 6) [
  | yes h ↦ ap (λ f. then_more f more) (sym (frame_header-short bytes h))
  | no h ↦
      frame_header-whole (bytes ++ more) (omega (arith, length-append bytes more))
      ∙ ap₂ (λ t d. accept (is_accepted (converted t)) (converted t) d)
          (take-append_le 6 bytes more (omega arith)) (drop-append_le 6 bytes more (omega arith))
      ∙ accept-append (is_accepted (converted (take 6 bytes))) (converted (take 6 bytes))
          (drop 6 bytes) more
      ∙ ap (λ f. then_more f more) (sym (frame_header-whole bytes (omega arith)))
]

-- Bytes that come in two pieces are framed as if they came at once.
pub frame-append :
    (p : Partial) (bytes more : List ℕ) → frame p (bytes ++ more) ≡ then_more (frame p bytes) more
unfolding frame
frame-append (in_header held) bytes more =
    ap frame_header (sym (append_assoc held bytes more)) ∙ frame_header-append (held ++ bytes) more
frame-append (in_payload cmd k held) bytes more =
    ap (frame_payload cmd k) (sym (append_assoc held bytes more))
    ∙ frame_payload-append cmd k (held ++ bytes) more
