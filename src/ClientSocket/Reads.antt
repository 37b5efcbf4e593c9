-- ===== src/ClientSocket/Reads.antt =====
-- src/client/Client/ClientSocket.cpp and src/shared/Network/Socket.h: reads that complete one after another.
use warhead_discord_client.Common.{
  ℕ, zero, suc, ◌≤◌, ◌<◌, ◌≡◌, refl, sym, ap, ◌∙◌, subst, Bool, true, false, Bool-cases, ◌==◌,
  Option, none, some, List, [], ◌∷◌, if◌then◌else◌, inl, inr, ◌⊎◌, arith, length, take, length-take,
  length-splice, dec_lt,
}
use warhead_discord_client.MessageBuffer.{
  MessageBuffer, active_size, remaining_space, normalize, ensure_free_space, write_completed,
  buffer_size,
}
use warhead_discord_client.MessageBuffer.Laws.{
  content, length-content, active_size-content, remaining_space-valid, normalize_lem,
}
use warhead_discord_client.MessageBuffer.Laws
use warhead_discord_client.Socket.{Socket, is_open, async_read, opened}
use warhead_discord_client.ClientSocket.{fresh, constructed, reject_if}
use warhead_discord_client.ClientSocket.State.{
  ClientSocket, Result, done, threw, out_of_range, assert_failed, undefined, chain,
}
use warhead_discord_client.ClientSocket.Loop.{
  Flow, goes_on, breaks, returns, set_read_buffer, round, read_loop, read_handler, after_round,
  put_in, read_handler_internal,
}
use warhead_discord_client.ClientSocket.Reading.{
  Framed, constructed-Framed, close_socket-read_buffer,
}
use warhead_discord_client.ClientSocket.Framing.{Ends, unread, Next, close_socket-closes}
use warhead_discord_client.ClientSocket.Rounds.{round-Ends, read_loop-rounds, read_loop-idle}

-- A socket that waits for a read: the buffers are well formed, and the whole read buffer is free.
pub record IsReading (c : ClientSocket) : Type 0 where
  pub framed : Framed c
  pub read_start : c.socket.read_buffer.rpos ≡ 0
  pub write_start : c.socket.read_buffer.wpos ≡ 0

-- What a read leaves: a closed socket, one that waits for the next read, or an exception.
abbrev pub IsAfterRead : Result (Unit {0}) × ClientSocket → Type 0
IsAfterRead (done u, d) = (is_open d.socket ≡ false) ⊎ IsReading d
IsAfterRead (threw e, d) = Unit {0}
IsAfterRead (out_of_range, d) = Unit {0}
IsAfterRead (assert_failed, d) = ⊥
IsAfterRead (undefined, d) = ⊥

Framed-read :
    (c : ClientSocket) (m : MessageBuffer)
    → Framed c
    → Laws.IsValid m
    → 0 < length m.storage
    → Framed (set_read_buffer m c)
Framed-read c m f v s = record {
  read_valid = v;
  read_space = s;
  header_valid = f.header_valid;
  header_start = f.header_start;
  header_size = f.header_size;
  packet_valid = f.packet_valid;
  packet_start = f.packet_start;
  no_payload = f.no_payload;
  awaits = f.awaits;
}

has_space : (m : MessageBuffer) → 0 < remaining_space m → ensure_free_space m ≡ m
unfolding ensure_free_space
has_space m h = ground arith

-- `AsyncRead` on a read buffer without unread bytes.
prepared :
    (m : MessageBuffer)
    → Laws.IsValid m
    → active_size m ≡ 0
    → 0 < length m.storage
    → (n : MessageBuffer) × (ensure_free_space (normalize m) ≡ n)
      × Laws.IsValid n
      × (n.rpos ≡ 0)
      × (n.wpos ≡ 0)
      × (0 < length n.storage)
unfolding buffer_size
prepared m v e s =
    let (v', c, r, room) = normalize_lem m v in
    let empty = ap length c in
    (
      normalize m,
      has_space (normalize m) (omega (arith, room, e, s)),
      v',
      r,
      omega (arith, r, empty, length-content v', active_size-content v, e),
      omega (arith, remaining_space-valid v', room, e, s),
    )

async_read-open :
    (s : Socket)
    → is_open s ≡ true
    → async_read s ≡ record s { read_buffer = ensure_free_space (normalize s.read_buffer) }
unfolding async_read
async_read-open s e =
    ap
      (λ b. if b then record s { read_buffer = ensure_free_space (normalize s.read_buffer) } else s)
      e

async_read-closed : (s : Socket) → is_open s ≡ false → async_read s ≡ s
unfolding async_read
async_read-closed s e =
    ap
      (λ b. if b then record s { read_buffer = ensure_free_space (normalize s.read_buffer) } else s)
      e

async_read-IsAfterRead :
    (c : ClientSocket)
    → Framed c
    → unread c ≡ 0
    → IsAfterRead (done tt, record c { socket = async_read c.socket })
async_read-IsAfterRead c f z = elim (Bool-cases (is_open c.socket)) [
  | inl e ↦
      let (m, same, v, r, w, s) = prepared c.socket.read_buffer f.read_valid z f.read_space in
      let all =
        async_read-open c.socket e
        ∙ ap (λ (n : MessageBuffer). record (c.socket) { read_buffer = n }) same in
      subst (λ (t : Socket). IsAfterRead (done tt, record c { socket = t })) (sym all)
        (inr (record { framed = Framed-read c m f v s; read_start = r; write_start = w }))
  | inr e ↦ inl (ap is_open (async_read-closed c.socket e) ∙ e)
]

after_round-IsAfterRead :
    (n : ℕ) (r : Result Flow) (d : ClientSocket) (rest : Result (Unit {0}) × ClientSocket)
    → Ends (Next n) (r, d)
    → (Next n d → IsAfterRead rest)
    → IsAfterRead (after_round (r, d) rest)
after_round-IsAfterRead n (done goes_on) d rest e f = f e
after_round-IsAfterRead n (done breaks) d rest e f = async_read-IsAfterRead d e.0 e.1
after_round-IsAfterRead n (done returns) d rest e f = inl e
after_round-IsAfterRead n (threw x) d rest e f = tt
after_round-IsAfterRead n out_of_range d rest e f = tt
after_round-IsAfterRead n assert_failed d rest e f = absurd e
after_round-IsAfterRead n undefined d rest e f = absurd e

read_loop-IsAfterRead :
    (fuel : ℕ) (clock : ℕ → ℕ) (k : ℕ) (c : ClientSocket)
    → Framed c
    → unread c < fuel
    → IsAfterRead (read_loop fuel clock k c)
read_loop-IsAfterRead zero clock k c f l = absurd (omega arith)
read_loop-IsAfterRead (suc fuel) clock k c f l = elim (dec_lt 0 (unread c)) [
  | yes h ↦ rw (read_loop-rounds fuel clock k c h) (
      after_round-IsAfterRead (unread c) _ _ _ (round-Ends (clock k) c f h) (λ next.
        read_loop-IsAfterRead fuel clock (suc k) (round (clock k) c).1 next.0
          (omega (arith, next.1))))
  | no h ↦
      rw (read_loop-idle fuel clock k c (omega arith)) (async_read-IsAfterRead c f (omega arith))
]

-- A read that completes: an error, or as many of the bytes as fit the read buffer; and the clock
-- during its handler.
pub record Read : Type 0 where
  pub bytes : Option (List ℕ)
  pub clock : ℕ → ℕ

abbrev pub fitting : ClientSocket → Option (List ℕ) → Option (List ℕ)
fitting c none = none
fitting c (some bytes) = some (take (remaining_space c.socket.read_buffer) bytes)

-- Reads one after another; none follows on a socket that is not open, or after an exception.
unfoldable pub run_reads : List Read → ClientSocket → Result (Unit {0}) × ClientSocket
unfolding read_handler_internal
run_reads [] c = (done tt, c)
run_reads (r ∷ reads) c =
    let (o, d) = read_handler_internal (fitting c r.bytes) r.clock c in
    if is_open c.socket then chain o (λ u. run_reads reads) d else (done tt, c)

put_in-IsValid :
    (c : ClientSocket) (bytes : List ℕ)
    → IsReading c
    → length bytes ≤ remaining_space c.socket.read_buffer
    → (let m = write_completed (put_in bytes c.socket.read_buffer) (length bytes) in
        Laws.IsValid m × (0 < length m.storage))
unfolding write_completed
put_in-IsValid c bytes r h =
    let m = c.socket.read_buffer in
    let v = r.framed.read_valid in
    let s = r.framed.read_space in
    let room = remaining_space-valid v in
    let w = r.write_start in
    let same = length-splice m.wpos bytes m.storage (omega arith) in
    (
      record { ordered = omega (arith, r.read_start); within = omega arith; small = omega arith },
      omega arith,
    )

read-IsAfterRead :
    (c : ClientSocket) (bytes : Option (List ℕ)) (clock : ℕ → ℕ)
    → IsReading c
    → IsAfterRead (read_handler_internal (fitting c bytes) clock c)
unfolding read_handler_internal read_handler
read-IsAfterRead c none clock r = inl (close_socket-closes c.socket)
read-IsAfterRead c (some bytes) clock r =
    let m = c.socket.read_buffer in
    let fits = take (remaining_space m) bytes in
    let l : length fits ≤ remaining_space m =
      omega (arith, length-take (remaining_space m) bytes) in
    let (v, s) = put_in-IsValid c fits r l in
    let n = write_completed (put_in fits m) (length fits) in
    read_loop-IsAfterRead (suc (active_size n)) clock 0 (set_read_buffer n c)
      (Framed-read c n r.framed v s) (omega arith)

module _ (r : Read) (reads : List Read) (c : ClientSocket) where
  run_reads-steps :
      is_open c.socket ≡ true
      → run_reads (r ∷ reads) c
        ≡ chain
            (read_handler_internal (fitting c r.bytes) r.clock c).0
            (λ u. run_reads reads)
            (read_handler_internal (fitting c r.bytes) r.clock c).1
  unfolding run_reads
  run_reads-steps e = ground arith

  run_reads-stops : is_open c.socket ≡ false → run_reads (r ∷ reads) c ≡ (done tt, c)
  unfolding run_reads
  run_reads-stops e = ground arith

chain-IsAfterRead :
    (o : Result (Unit {0})) (d : ClientSocket) (reads : List Read)
    → IsAfterRead (o, d)
    → ((e : ClientSocket) → IsReading e → IsAfterRead (run_reads reads e))
    → IsAfterRead (chain o (λ u. run_reads reads) d)
unfolding run_reads
chain-IsAfterRead (done u) d reads (inr v) f = f d v
chain-IsAfterRead (done u) d [] (inl e) f = inl e
chain-IsAfterRead (done u) d (r ∷ reads) (inl e) f =
    subst IsAfterRead (sym (run_reads-stops r reads d e)) (inl e)
chain-IsAfterRead (threw x) d reads v f = tt
chain-IsAfterRead out_of_range d reads v f = tt
chain-IsAfterRead assert_failed d reads v f = absurd v
chain-IsAfterRead undefined d reads v f = absurd v

-- Any sequence of reads on a socket that waits for a read, whatever bytes they bring: no assertion of
-- `ReadHandler` fails and nothing is accessed outside a storage. In the end the socket is not open, or an
-- exception of a malformed packet has left the handler, or the socket waits for the next read with its
-- buffers well formed and the whole read buffer free.
pub run_reads-IsAfterRead :
    (reads : List Read) (c : ClientSocket) → IsReading c → IsAfterRead (run_reads reads c)
run_reads-IsAfterRead [] c v = unfold run_reads in inr v
run_reads-IsAfterRead (r ∷ reads) c v = elim (Bool-cases (is_open c.socket)) [
  | inl e ↦ rw (run_reads-steps r reads c e) (
      chain-IsAfterRead _ _ reads (read-IsAfterRead c r.bytes r.clock v)
        (run_reads-IsAfterRead reads))
  | inr e ↦ rw (run_reads-stops r reads c e) (inl e)
]

reject_if-read_buffer :
    (empty : Bool) (c : ClientSocket)
    → (reject_if empty c).socket.read_buffer ≡ c.socket.read_buffer
reject_if-read_buffer true c = close_socket-read_buffer c.socket
reject_if-read_buffer false c = refl

-- The constructor leaves the socket so.
pub constructed-IsReading :
    (account_name account_key : List ℕ) (server_id : ℕ)
    → IsReading (constructed account_name account_key server_id)
unfolding constructed fresh opened
constructed-IsReading account_name account_key server_id = record {
  framed = constructed-Framed account_name account_key server_id;
  read_start = ap (λ m. m.rpos) same;
  write_start = ap (λ m. m.wpos) same;
}
  where
    same :
        (constructed account_name account_key server_id).socket.read_buffer
        ≡ (fresh account_name account_key server_id).socket.read_buffer
    same =
        reject_if-read_buffer _ _
        ∙ reject_if-read_buffer _ _
        ∙ reject_if-read_buffer (server_id == 0) (fresh account_name account_key server_id)
