-- ===== src/ClientSocket/Reading.antt =====
-- src/client/Client/ClientSocket.cpp: one transfer of `ReadHandler` between two buffers, and the
-- invariant of the buffers between rounds.
use warhead_discord_client.Common.{
  ℕ, ◌+◌, ◌^◌, ◌<◌, ◌≡◌, refl, ap, ap₂, ◌∙◌, append_assoc, take-append-drop, length-append,
  length-drop, min, Bool, true, false, some, List, [], ◌++◌, arith, length, length-take,
  length-resize, resize, take, drop, ◌==◌,
}
use warhead_discord_client.MessageBuffer.{
  MessageBuffer, sized, default_size, active_size, remaining_space, read_bytes, read_completed,
  resized,
}
use warhead_discord_client.MessageBuffer.Laws.{
  content, length-content, active_size-content, remaining_space-valid, read_bytes-content,
  read_completed_lem, write_fits, Wrote,
}
use warhead_discord_client.MessageBuffer.Laws
use warhead_discord_client.Socket.{Socket, opened, close_socket, read_block_size}
use warhead_discord_client.ClientSocket.{fresh, constructed, reject_if}
use warhead_discord_client.PacketHeader.{header_length}
use warhead_discord_client.ClientSocket.State.{ClientSocket, option_then}
use warhead_discord_client.ClientSocket.Loop.{receive}

-- The number of bytes that a transfer moves.
abbrev pub moves : MessageBuffer → MessageBuffer → ℕ
moves packet target = min (active_size packet) (remaining_space target)

-- What a transfer comes to.
pub record Received (packet target packet' target' : MessageBuffer) : Type 0 where
  pub packet_valid : Laws.IsValid packet'
  pub target_valid : Laws.IsValid target'
  pub kept : content target' ++ content packet' ≡ content target ++ content packet
  pub taken : length (content target') ≡ length (content target) + moves packet target
  pub start : target'.rpos ≡ target.rpos
  pub space : length target'.storage ≡ length target.storage
  pub read_space : length packet'.storage ≡ length packet.storage
  pub left : active_size packet' + moves packet target ≡ active_size packet

-- A transfer between valid buffers stays inside both storages. It keeps the order of the bytes: what
-- the target holds and then what is left in the read buffer reads as before. It moves as many bytes
-- as there are, or as the target has room for if that is less.
pub receive-Received :
    (packet target : MessageBuffer)
    → Laws.IsValid packet
    → Laws.IsValid target
    → (packet' target' : MessageBuffer) × (receive packet target ≡ some (packet', target'))
      × Received packet target packet' target'
unfolding receive
receive-Received packet target v w =
    let n = moves packet target in
    let bytes : read_bytes packet n ≡ take n (content packet) =
      read_bytes-content packet n (omega (arith, active_size-content v, length-content v)) in
    let l : length (read_bytes packet n) ≡ n =
      ap length bytes ∙ length-take n (content packet) ∙ omega (arith, active_size-content v) in
    let (target', e, r) = write_fits target (read_bytes packet n) w (omega arith) in
    let (v', c, _, same) = read_completed_lem packet n v (omega arith) in
    (
      read_completed packet n,
      target',
      ap (λ o. option_then o (λ t. some (read_completed packet n, t))) e,
      record {
        packet_valid = v';
        target_valid = r.valid;
        kept =
            ap₂ ◌++◌ (r.stream ∙ ap (λ b. content target ++ b) bytes) c
            ∙ append_assoc (content target) (take n (content packet)) (drop n (content packet))
            ∙ ap (λ b. content target ++ b) (take-append-drop n (content packet));
        taken =
            ap length r.stream
            ∙ length-append (content target) (read_bytes packet n)
            ∙ ap (λ k. length (content target) + k) l;
        start = r.read_pos;
        space = r.size;
        read_space = ap length same;
        left = omega (
          arith,
          active_size-content v,
          active_size-content v',
          ap length c,
          length-drop n (content packet),
        );
      },
    )

-- The buffers between two rounds: the header buffer has room for six bytes, it is full only while a
-- payload is awaited, and while it is not full no payload has begun.
pub record Framed (c : ClientSocket) : Type 0 where
  pub read_valid : Laws.IsValid c.socket.read_buffer
  pub read_space : 0 < length c.socket.read_buffer.storage
  pub header_valid : Laws.IsValid c.header_buffer
  pub header_start : c.header_buffer.rpos ≡ 0
  pub header_size : length c.header_buffer.storage ≡ 6
  pub packet_valid : Laws.IsValid c.packet_buffer
  pub packet_start : c.packet_buffer.rpos ≡ 0
  pub no_payload : c.header_buffer.wpos < 6 → c.packet_buffer.wpos ≡ 0
  pub awaits : c.header_buffer.wpos ≡ 6 → c.packet_buffer.wpos < length c.packet_buffer.storage

abbrev rejected : ClientSocket → ClientSocket
rejected c = record c { disconnects = c.disconnects + 1; socket = close_socket c.socket }

pub close_socket-read_buffer : (s : Socket) → (close_socket s).read_buffer ≡ s.read_buffer
unfolding close_socket
close_socket-read_buffer s = ground arith

rejected-Framed : (c : ClientSocket) → Framed c → Framed (rejected c)
rejected-Framed c f = record {
  read_valid = rw (close_socket-read_buffer c.socket) f.read_valid;
  read_space = rw (close_socket-read_buffer c.socket) f.read_space;
  header_valid = f.header_valid;
  header_start = f.header_start;
  header_size = f.header_size;
  packet_valid = f.packet_valid;
  packet_start = f.packet_start;
  no_payload = f.no_payload;
  awaits = f.awaits;
}

reject_if-Framed : (empty : Bool) (c : ClientSocket) → Framed c → Framed (reject_if empty c)
reject_if-Framed true c f = rejected-Framed c f
reject_if-Framed false c f = f

resized-IsValid : (n k : ℕ) → k < 2 ^ 62 → Laws.IsValid (resized (sized n) k)
unfolding resized
resized-IsValid n k h = record {
  ordered = omega arith;
  within = omega arith;
  small = omega (arith, length-resize {A = ℕ} k 0 (resize n 0 []));
}

resized-start :
    (n k : ℕ)
    → ((resized (sized n) k).rpos ≡ 0)
      × ((resized (sized n) k).wpos ≡ 0)
      × (length (resized (sized n) k).storage ≡ k)
unfolding resized
resized-start n k = (refl, refl, length-resize {A = ℕ} k 0 (resize n 0 []))

sized-IsValid : (n : ℕ) → n < 2 ^ 62 → Laws.IsValid (sized n)
sized-IsValid n h = record {
  ordered = omega arith;
  within = omega arith;
  small = omega (arith, length-resize {A = ℕ} n 0 []);
}

fresh-Framed :
    (account_name account_key : List ℕ) (server_id : ℕ)
    → Framed (fresh account_name account_key server_id)
unfolding fresh opened
fresh-Framed account_name account_key server_id =
    let (r, w, l) = resized-start default_size header_length in
    record {
      read_valid = resized-IsValid default_size read_block_size (omega arith);
      read_space = omega (arith, (resized-start default_size read_block_size).2);
      header_valid = resized-IsValid default_size header_length (omega arith);
      header_start = r;
      header_size = l;
      packet_valid = sized-IsValid default_size (omega arith);
      packet_start = refl;
      no_payload = λ _. refl;
      awaits = λ e. absurd (omega (arith, e, w));
    }

-- Whatever the configuration, the constructor leaves the buffers of `ReadHandler` well formed.
pub constructed-Framed :
    (account_name account_key : List ℕ) (server_id : ℕ)
    → Framed (constructed account_name account_key server_id)
unfolding constructed
constructed-Framed account_name account_key server_id =
    reject_if-Framed (length account_key == 0) _ (
      reject_if-Framed (length account_name == 0) _ (
        reject_if-Framed (server_id == 0) (fresh account_name account_key server_id)
          (fresh-Framed account_name account_key server_id)))

-- A socket with the same buffers.
pub record SameBuffers (c d : ClientSocket) : Type 0 where
  pub read_buffer : d.socket.read_buffer ≡ c.socket.read_buffer
  pub header_buffer : d.header_buffer ≡ c.header_buffer
  pub packet_buffer : d.packet_buffer ≡ c.packet_buffer

SameBuffers-trans : {c d e : ClientSocket} → SameBuffers c d → SameBuffers d e → SameBuffers c e
SameBuffers-trans p q = record {
  read_buffer = q.read_buffer ∙ p.read_buffer;
  header_buffer = q.header_buffer ∙ p.header_buffer;
  packet_buffer = q.packet_buffer ∙ p.packet_buffer;
}
