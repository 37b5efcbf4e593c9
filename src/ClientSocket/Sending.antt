-- ===== src/ClientSocket/Sending.antt =====
-- src/client/Client/ClientSocket.cpp: what `SendPacket` puts into the write queue.
use warhead_discord_client.Common.{
  ℕ, ◌+◌, ◌-◌, ◌%◌, ◌^◌, ◌≤◌, ◌<◌, ◌≡◌, ◌≢◌, refl, sym, ap, ◌∙◌, Bool, true, false, not, Option,
  some, List, [], ◌∷◌, ◌++◌, append-nil, inl, inr, ◌⊎◌, Bool-cases, arith, length, length-append,
  length-resize, ltb, leb, ◌==◌, if◌then◌else◌, dec_lt, ℕ_discrete,
}
use warhead_discord_client.Common.Bytes.{add64}
use warhead_discord_client.ByteBuffer.{size}
use warhead_discord_client.MessageBuffer.{
  MessageBuffer, sized, default_size, active_size, remaining_space, write, moved,
}
use warhead_discord_client.MessageBuffer.Laws.{content, write_fits, Wrote, active_size-content}
use warhead_discord_client.MessageBuffer.Laws
use warhead_discord_client.PacketHeader.{server_header}
use warhead_discord_client.Socket.{Socket, is_open, queue_packet}
use warhead_discord_client.Socket.Stream.{waiting, waiting-append, QueueIsValid}
use warhead_discord_client.Socket.History.{All-snoc}
use warhead_discord_client.ClientSocket.{fill, send_with, send_packet, queue_active}
use warhead_discord_client.ClientSocket.State.{DiscordPacket, option_then}

-- The bytes of a packet on the wire.
abbrev pub wire : DiscordPacket → List ℕ
wire p = server_header (size p.payload + 2) p.opcode ++ p.payload.storage

sized-IsValid : (n : ℕ) → n < 2 ^ 62 → Laws.IsValid (sized n)
sized-IsValid n h = record {
  ordered = omega arith;
  within = omega arith;
  small = omega (arith, length-resize {A = ℕ} n 0 []);
}

remaining_space-sized : (n : ℕ) → n < 2 ^ 62 → remaining_space (sized n) ≡ n
unfolding remaining_space
remaining_space-sized n h = omega (arith, length-resize {A = ℕ} n 0 [])

length-server_header : (n c : ℕ) → length (server_header n c) ≡ 6
unfolding server_header
length-server_header n c = refl

-- A buffer with the packet's bytes.
pub record Filled (p : DiscordPacket) (m : MessageBuffer) : Type 0 where
  pub valid : Laws.IsValid m
  pub bytes : content m ≡ wire p

no_payload : (xs : List ℕ) → length xs ≡ 0 → [] ≡ xs
no_payload [] h = refl
no_payload (x ∷ xs) h = ground arith

-- The second write of `fill`.
abbrev rest_of : DiscordPacket → MessageBuffer → Option MessageBuffer
rest_of p m = if size p.payload == 0 then some m else write m p.payload.storage

rest_none : (p : DiscordPacket) (m : MessageBuffer) → size p.payload ≡ 0 → rest_of p m ≡ some m
rest_none p m h = ground arith

rest_more :
    (p : DiscordPacket) (m : MessageBuffer)
    → size p.payload ≢ 0
    → rest_of p m ≡ write m p.payload.storage
rest_more p m h = ground arith

fill-header :
    (p : DiscordPacket) (m₀ m : MessageBuffer)
    → size p.payload < 2 ^ 32 - 2
    → write m₀ (server_header (size p.payload + 2) p.opcode) ≡ some m
    → fill p m₀ ≡ rest_of p m
unfolding fill
fill-header p m₀ m h e =
    let k : (size p.payload + 2) % 2 ^ 32 ≡ size p.payload + 2 = omega arith in
    ap (λ n. option_then (write m₀ (server_header n p.opcode)) (rest_of p)) k
    ∙ ap (λ r. option_then r (rest_of p)) e

module _ (p : DiscordPacket) (n : ℕ) (fits : size p.payload + 6 ≤ n) (small : n < 2 ^ 32 - 2) where
  abbrev header : List ℕ
  header = server_header (size p.payload + 2) p.opcode

  header_written :
      (m : MessageBuffer) × (write (sized n) header ≡ some m) × Wrote (sized n) header m
  header_written = write_fits (sized n) header (sized-IsValid n (omega arith)) (
      omega (
        arith,
        length-server_header (size p.payload + 2) p.opcode,
        remaining_space-sized n (omega arith),
      ))

  fill_rest :
      (m : MessageBuffer)
      → Wrote (sized n) header m
      → (m' : MessageBuffer) × (rest_of p m ≡ some m') × Filled p m'
  unfolding remaining_space
  fill_rest m w = elim (ℕ_discrete (size p.payload) 0) [
    | yes z ↦ (
      m,
      rest_none p m z,
      record {
        valid = w.valid;
        bytes =
            w.stream
            ∙ sym (append-nil header)
            ∙ ap (λ l. header ++ l) (no_payload p.payload.storage z);
      },
    )
    | no nz ↦
        let (m', e, w') = write_fits m p.payload.storage w.valid (
          omega (
            arith,
            w.write_pos,
            w.size,
            length-server_header (size p.payload + 2) p.opcode,
            length-resize {A = ℕ} n 0 [],
          )) in
        (
          m',
          rest_more p m nz ∙ e,
          record {
            valid = w'.valid;
            bytes = w'.stream ∙ ap (λ l. l ++ p.payload.storage) w.stream;
          },
        )
  ]

  fill_fits : (m : MessageBuffer) × (fill p (sized n) ≡ some m) × Filled p m
  fill_fits =
      let (m, e, w) = header_written in
      let (m', e', f) = fill_rest m w in (m', fill-header p (sized n) m (omega arith) e ∙ e', f)

length-wire : (p : DiscordPacket) → length (wire p) ≡ size p.payload + 6
length-wire p = omega (
  arith,
  length-append (server_header (size p.payload + 2) p.opcode) p.payload.storage,
  length-server_header (size p.payload + 2) p.opcode,
)

module _ (p : DiscordPacket) (full : MessageBuffer) (s : Socket) where
  -- The end of `send_with` with the two tests in it decided.
  abbrev sent_by : ℕ → MessageBuffer → Socket → Bool → Option Socket
  sent_by n buffer t fits =
      if fits
      then option_then (fill p buffer) (λ b. some (queue_active b t))
      else option_then (fill p (sized n)) (λ b. some (queue_active buffer (queue_packet b t)))

  abbrev chosen : ℕ → Bool → Option Socket
  chosen n small =
      let buffer = if small then (moved full).1 else full in
      sent_by n buffer (if small then queue_packet (moved full).0 s else s)
        (leb n (remaining_space buffer))

  moved_active : active_size (moved full).1 ≡ 0
  unfolding moved active_size
  moved_active = refl

  queue_active-moved : (t : Socket) → queue_active (moved full).1 t ≡ t
  queue_active-moved t = let e = moved_active in ground arith

  send_with-small :
      size p.payload + 6 ≤ remaining_space full
      → size p.payload < 2 ^ 31
      → send_with full p s ≡ option_then (fill p full) (λ b. some (queue_active b s))
  unfolding send_with
  send_with-small h b =
      let e : add64 (size p.payload) 6 ≡ size p.payload + 6 = omega arith in
      let k : ltb (remaining_space full) (add64 (size p.payload) 6) ≡ false = ground arith in
      let f : leb (add64 (size p.payload) 6) (remaining_space full) ≡ true = ground arith in
      ap (chosen (add64 (size p.payload) 6)) k ∙ ap (sent_by (add64 (size p.payload) 6) full s) f

  send_with-large :
      remaining_space full < size p.payload + 6
      → size p.payload < 2 ^ 31
      → send_with full p s
        ≡ option_then
            (fill p (sized (size p.payload + 6)))
            (λ b. some (queue_packet b (queue_packet full s)))
  unfolding send_with remaining_space moved
  send_with-large h b =
      let e : add64 (size p.payload) 6 ≡ size p.payload + 6 = omega arith in
      let k : ltb (remaining_space full) (add64 (size p.payload) 6) ≡ true = ground arith in
      let f : leb (size p.payload + 6) (remaining_space (moved full).1) ≡ false = ground arith in
      ap (chosen (add64 (size p.payload) 6)) k
      ∙ ap (λ n. chosen n true) e
      ∙ ap (sent_by (size p.payload + 6) (moved full).1 (queue_packet full s)) f
      ∙ ap (option_then (fill p (sized (size p.payload + 6))))
          (λ i b. some (queue_active-moved (queue_packet b (queue_packet full s)) i))

send_packet-open :
    (p : DiscordPacket) (s : Socket)
    → is_open s ≡ true
    → send_packet p s ≡ send_with (sized default_size) p s
unfolding send_packet
send_packet-open p s o = ap (λ b. if not b then some s else send_with (sized default_size) p s) o

queue_active-Filled :
    (p : DiscordPacket) (s : Socket) (m : MessageBuffer)
    → Filled p m
    → queue_active m s ≡ queue_packet m s
queue_active-Filled p s m f =
    let l : active_size m ≡ size p.payload + 6 =
      active_size-content f.valid ∙ ap length f.bytes ∙ length-wire p in
    ground arith

-- What a packet leaves in the write queue.
pub record Sent (p : DiscordPacket) (s s' : Socket) : Type 0 where
  pub valid : QueueIsValid s'
  pub stream : waiting s'.write_queue ≡ waiting s.write_queue ++ wire p

queue_packet-Sent :
    (p : DiscordPacket) (m : MessageBuffer) (s : Socket)
    → Filled p m
    → QueueIsValid s
    → Sent p s (queue_packet m s)
unfolding queue_packet
queue_packet-Sent p m s f v = record {
  valid = All-snoc s.write_queue m v f.valid;
  stream =
      waiting-append s.write_queue (m ∷ [])
      ∙ ap (λ l. waiting s.write_queue ++ l) (append-nil (content m) ∙ f.bytes);
}

queue_empty-waiting :
    (s : Socket)
    → QueueIsValid s
    → QueueIsValid (queue_packet (sized default_size) s)
      × (waiting (queue_packet (sized default_size) s).write_queue ≡ waiting s.write_queue)
unfolding queue_packet
queue_empty-waiting s v = (
  All-snoc s.write_queue (sized default_size) v (sized-IsValid default_size (omega arith)),
  waiting-append s.write_queue (sized default_size ∷ []) ∙ append-nil (waiting s.write_queue),
)

-- The message of the packet goes to the queue, behind an empty one if the packet is large.
pub send_packet-queues :
    (p : DiscordPacket) (s : Socket)
    → is_open s ≡ true
    → size p.payload < 2 ^ 31
    → (m : MessageBuffer) × Filled p m
      × ((send_packet p s ≡ some (queue_packet m s))
          ⊎ (send_packet p s ≡ some (queue_packet m (queue_packet (sized default_size) s))))
send_packet-queues p s o b = elim (dec_lt default_size (size p.payload + 6)) [
  | yes large ↦
      let (m, e, f) = fill_fits p (size p.payload + 6) (omega arith) (omega arith) in
      (
        m,
        f,
        inr (
            send_packet-open p s o
            ∙ send_with-large p (sized default_size) s
                (let r = remaining_space-sized default_size (omega arith) in omega arith) b
            ∙ ap
                (λ r.
                  option_then r (λ x. some (queue_packet x (queue_packet (sized default_size) s))))
                e),
      )
  | no small ↦
      let (m, e, f) = fill_fits p default_size (omega arith) (omega arith) in
      (
        m,
        f,
        inl (
            send_packet-open p s o
            ∙ send_with-small p (sized default_size) s
                (let r = remaining_space-sized default_size (omega arith) in omega arith) b
            ∙ ap (λ r. option_then r (λ x. some (queue_active x s))) e
            ∙ ap some (queue_active-Filled p s m f)),
      )
]

-- Sending a packet of less than 2^31 bytes on an open socket succeeds: whatever the size of the
-- packet, exactly its header and its payload are added to the bytes that wait, and the queued
-- messages are well formed.
pub send_packet-Sent :
    (p : DiscordPacket) (s : Socket)
    → is_open s ≡ true
    → size p.payload < 2 ^ 31
    → QueueIsValid s
    → (s' : Socket) × (send_packet p s ≡ some s') × Sent p s s'
send_packet-Sent p s o b v =
    let (m, f, sends) = send_packet-queues p s o b in
    elim sends [
      | inl e ↦ (queue_packet m s, e, queue_packet-Sent p m s f v)
      | inr e ↦
          let (v', w) = queue_empty-waiting s v in
          let q = queue_packet-Sent p m (queue_packet (sized default_size) s) f v' in
          (
            queue_packet m (queue_packet (sized default_size) s),
            e,
            record { valid = q.valid; stream = q.stream ∙ ap (λ l. l ++ wire p) w },
          )
    ]

send_packet-closed : (p : DiscordPacket) (s : Socket) → is_open s ≡ false → send_packet p s ≡ some s
unfolding send_packet
send_packet-closed p s o = ap (λ b. if not b then some s else send_with (sized default_size) p s) o

-- A packet of less than 2^31 bytes never makes `SendPacket` leave a storage, and the read buffer of
-- the socket stays.
pub send_packet-read_buffer :
    (p : DiscordPacket) (s : Socket)
    → size p.payload < 2 ^ 31
    → (s' : Socket) × (send_packet p s ≡ some s') × (s'.read_buffer ≡ s.read_buffer)
unfolding queue_packet
send_packet-read_buffer p s b = elim (Bool-cases (is_open s)) [
  | inl o ↦
      let (m, f, sends) = send_packet-queues p s o b in
      elim sends [
        | inl e ↦ (queue_packet m s, e, refl)
        | inr e ↦ (queue_packet m (queue_packet (sized default_size) s), e, refl)
      ]
  | inr o ↦ (s, send_packet-closed p s o, refl)
]
