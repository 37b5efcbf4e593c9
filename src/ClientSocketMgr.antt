-- ===== src/ClientSocketMgr.antt =====
-- src/client/Client/ClientSocketMgr.cpp: the manager that owns the client's connection. The handlers
-- that its timer owes are kept in a list: each runs once, also when `cancel` or a new expiry time made
-- it run early, since no handler looks at the error code. Logging is left out.
pub mod Forwarding
pub mod Lifecycle
mod Runs
use warhead_discord_client.Common.{
  ℕ, zero, suc, Bool, true, false, Option, none, some, List, [], ◌∷◌, ◌++◌, if◌then◌else◌,
}
use warhead_discord_client.Socket.{Answer, is_open, close_socket}
use warhead_discord_client.ClientSocket.State.{
  DiscordPacket, ClientSocket, Result, done, threw, out_of_range, assert_failed, undefined,
}
use warhead_discord_client.ClientSocket.Loop

-- The handlers of the timer: `Update`, and the connection with so many tries.
pub data Handler : Type 0 where
  updates : Handler
  connects : ℕ → Handler

pub record ClientSocketMgr : Type 0 where
  pub stopped : Bool
  pub client_socket : Option ClientSocket
  pub buffer_queue : List DiscordPacket
  pub owed : List Handler
  pub released : List ClientSocket
  pub has_address : Bool

abbrev pub later : Handler → ClientSocketMgr → ClientSocketMgr
later h m = record m { owed = m.owed ++ (h ∷ []) }

-- The manager lets go of its client, in the state that f gives it; others may still hold it.
abbrev pub let_go :
    (ClientSocket → ClientSocket) → Option ClientSocket → ClientSocketMgr → ClientSocketMgr
let_go f none m = m
let_go f (some c) m = record m { client_socket = none; released = m.released ++ (f c ∷ []) }

abbrev pub close : ClientSocket → ClientSocket
close c = record c { socket = close_socket c.socket }

abbrev pub close_if_open : ClientSocket → ClientSocket
close_if_open c = if is_open c.socket then close c else c

unfoldable pub disconnect : ClientSocketMgr → ClientSocketMgr
disconnect m = let_go close_if_open m.client_socket (record m { stopped = true })

unfoldable pub add_packet_to_queue : DiscordPacket → ClientSocketMgr → ClientSocketMgr
add_packet_to_queue packet m = record m { buffer_queue = m.buffer_queue ++ (packet ∷ []) }

-- `SendPacket`: the packet goes to the client's own queue, or is dropped without a client.
abbrev pub hand_over : DiscordPacket → Option ClientSocket → Option ClientSocket
hand_over packet none = none
hand_over packet (some c) = some (Loop.add_packet_to_queue packet c)

unfoldable pub send_packet : DiscordPacket → ClientSocketMgr → ClientSocketMgr
send_packet packet m = record m { client_socket = hand_over packet m.client_socket }

-- `while (_bufferQueue.GetNextPacket(queuedPacket)) SendPacket(*queuedPacket);`
unfoldable pub forward_all : List DiscordPacket → ClientSocketMgr → ClientSocketMgr
unfolding send_packet
forward_all [] m = record m { buffer_queue = [] }
forward_all (packet ∷ rest) m = forward_all rest (send_packet packet m)

-- `ConnectToServer`
unfoldable pub connect_to_server : ℕ → ClientSocketMgr → ClientSocketMgr
connect_to_server reconnect_count m = later (connects reconnect_count) m

-- What the client's own update came to: dead, alive, or an exception that leaves `Update`.
abbrev pub after_client : Result Bool × ClientSocket → ClientSocketMgr → Bool × ClientSocketMgr
after_client (done true, c) m =
    (true, forward_all m.buffer_queue (record m { client_socket = some c }))
after_client (done false, c) m = (true, connect_to_server 3 (let_go close (some c) m))
after_client (threw e, c) m = (false, record m { client_socket = some c })
after_client (out_of_range, c) m = (false, record m { client_socket = some c })
after_client (assert_failed, c) m = (false, record m { client_socket = some c })
after_client (undefined, c) m = (false, record m { client_socket = some c })

abbrev pub on_client : (ℕ → Answer) → Option ClientSocket → ClientSocketMgr → Bool × ClientSocketMgr
on_client answers none m = (true, m)
on_client answers (some c) m = after_client (Loop.update answers c) m

-- `Update`, and whether it returned.
unfoldable pub update : (ℕ → Answer) → ClientSocketMgr → Bool × ClientSocketMgr
unfolding forward_all connect_to_server
update answers m =
    if m.stopped then (true, m) else on_client answers m.client_socket (later updates m)

abbrev pub has_open : Option ClientSocket → Bool
has_open none = false
has_open (some c) = is_open c.socket

-- The tries of the connection handler: each answer is a new connection that has started, or none.
abbrev pub try_connect : ℕ → List (Option ClientSocket) → ClientSocketMgr → ClientSocketMgr
try_connect zero tries m = disconnect m
try_connect (suc k) [] m = disconnect m
try_connect (suc k) (none ∷ tries) m = try_connect k tries m
try_connect (suc k) (some c ∷ tries) m =
    later updates (record (let_go (λ old. old) m.client_socket m) { client_socket = some c })

-- The handler that `ConnectToServer` leaves with the timer.
unfoldable pub on_connect : ℕ → List (Option ClientSocket) → ClientSocketMgr → ClientSocketMgr
unfolding disconnect
on_connect reconnect_count tries m =
    if has_open m.client_socket
    then m
    else if m.has_address
    then try_connect reconnect_count tries m
    else m

-- `Initialize`, with the option that enables the client and whether the address was found.
unfoldable pub initialize : Bool → Bool → ClientSocketMgr → ClientSocketMgr
unfolding connect_to_server
initialize enabled found m =
    if enabled
    then if found then connect_to_server 1 (record m { has_address = true }) else m
    else m
