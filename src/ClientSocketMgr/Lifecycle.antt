-- ===== src/ClientSocketMgr/Lifecycle.antt =====
-- src/client/Client/ClientSocketMgr.cpp: the manager through losses of the connection. The timer runs the handlers
-- that it owes in some order; between them the application disconnects and queues packets.
use warhead_discord_client.Common.{
  ℕ, zero, suc, ◌≡◌, refl, sym, ap, ◌∙◌, subst, Bool, true, false, Bool-cases, inl, inr, ◌⊎◌,
  Option, none, some, List, [], ◌∷◌, ◌++◌, if◌then◌else◌,
}
use warhead_discord_client.Socket.{Answer}
use warhead_discord_client.ClientSocket.State.{
  DiscordPacket, ClientSocket, Result, done, threw, out_of_range, assert_failed, undefined,
}
use warhead_discord_client.ClientSocket.Loop
use warhead_discord_client.ClientSocketMgr.{
  Handler, updates, connects, ClientSocketMgr, later, let_go, close_if_open, disconnect,
  add_packet_to_queue, send_packet, forward_all, connect_to_server, after_client, on_client, update,
  has_open, try_connect, on_connect,
}

-- The i-th handler that is owed runs, with what the system answers to its writes or its connections.
pub data Event : Type 0 where
  runs : ℕ → (ℕ → Answer) → List (Option ClientSocket) → Event
  disconnects : Event
  queues : DiscordPacket → Event

abbrev pub pick : ℕ → List Handler → Option Handler × List Handler
pick i [] = (none, [])
pick zero (h ∷ hs) = (some h, hs)
pick (suc i) (h ∷ hs) = let (o, rest) = pick i hs in (o, h ∷ rest)

abbrev pub run_handler :
    Option Handler → (ℕ → Answer) → List (Option ClientSocket) → ClientSocketMgr → ClientSocketMgr
unfolding update on_connect
run_handler none answers tries m = m
run_handler (some updates) answers tries m = (update answers m).1
run_handler (some (connects k)) answers tries m = on_connect k tries m

unfoldable pub step : Event → ClientSocketMgr → ClientSocketMgr
unfolding run_handler disconnect add_packet_to_queue
step (runs i answers tries) m =
    let (h, rest) = pick i m.owed in run_handler h answers tries (record m { owed = rest })
step disconnects m = disconnect m
step (queues packet) m = add_packet_to_queue packet m

unfoldable pub run : List Event → ClientSocketMgr → ClientSocketMgr
unfolding step
run [] m = m
run (e ∷ es) m = run es (step e m)

abbrev pub OwesUpdate : List Handler → Type 0
OwesUpdate [] = ⊥
OwesUpdate (updates ∷ hs) = Unit
OwesUpdate (connects k ∷ hs) = OwesUpdate hs

abbrev pub OwesConnect : List Handler → Type 0
OwesConnect [] = ⊥
OwesConnect (updates ∷ hs) = OwesConnect hs
OwesConnect (connects k ∷ hs) = Unit

-- The manager goes on: it is stopped, or an update is owed, or it has no client and a connection is owed.
abbrev pub GoesOn : ClientSocketMgr → Type 0
GoesOn m =
    (m.has_address ≡ true)
    × ((m.stopped ≡ true) ⊎ (OwesUpdate m.owed ⊎ (OwesConnect m.owed × (m.client_socket ≡ none))))

OwesUpdate-later : (hs : List Handler) → OwesUpdate (hs ++ (updates ∷ []))
OwesUpdate-later [] = tt
OwesUpdate-later (updates ∷ hs) = tt
OwesUpdate-later (connects k ∷ hs) = OwesUpdate-later hs

OwesUpdate-append : (hs ks : List Handler) → OwesUpdate hs → OwesUpdate (hs ++ ks)
OwesUpdate-append [] ks v = absurd v
OwesUpdate-append (updates ∷ hs) ks v = tt
OwesUpdate-append (connects k ∷ hs) ks v = OwesUpdate-append hs ks v

OwesUpdate-pick :
    (i k : ℕ) (hs : List Handler)
    → (pick i hs).0 ≡ some (connects k)
    → OwesUpdate hs
    → OwesUpdate (pick i hs).1
OwesUpdate-pick i k [] e v = absurd v
OwesUpdate-pick zero k (updates ∷ hs) e v =
    absurd (let c : some updates ≡ some (connects k) = e in cc)
OwesUpdate-pick zero k (connects j ∷ hs) e v = v
OwesUpdate-pick (suc i) k (updates ∷ hs) e v = tt
OwesUpdate-pick (suc i) k (connects j ∷ hs) e v = OwesUpdate-pick i k hs e v

pick-none : (i : ℕ) (hs : List Handler) → (pick i hs).0 ≡ none → (pick i hs).1 ≡ hs
pick-none i [] e = refl
pick-none zero (h ∷ hs) e = absurd (let c : some h ≡ none = e in cc)
pick-none (suc i) (h ∷ hs) e = ap (λ l. h ∷ l) (pick-none i hs e)

-- Handing over packets changes neither the handlers nor the address.
forward_all-owed :
    (ps : List DiscordPacket) (m : ClientSocketMgr)
    → ((forward_all ps m).owed ≡ m.owed) × ((forward_all ps m).has_address ≡ m.has_address)
unfolding forward_all send_packet
forward_all-owed [] m = (refl, refl)
forward_all-owed (p ∷ ps) m = forward_all-owed ps (send_packet p m)

after_client-GoesOn :
    (r : Result Bool × ClientSocket) (m : ClientSocketMgr)
    → m.has_address ≡ true
    → OwesUpdate m.owed
    → GoesOn (after_client r m).1
unfolding connect_to_server
after_client-GoesOn (done true, c) m a v =
    let (o, h) = forward_all-owed m.buffer_queue (record m { client_socket = some c }) in
    (h ∙ a, inr (inl (subst OwesUpdate (sym o) v)))
after_client-GoesOn (done false, c) m a v =
    (a, inr (inl (OwesUpdate-append m.owed (connects 3 ∷ []) v)))
after_client-GoesOn (threw e, c) m a v = (a, inr (inl v))
after_client-GoesOn (out_of_range, c) m a v = (a, inr (inl v))
after_client-GoesOn (assert_failed, c) m a v = (a, inr (inl v))
after_client-GoesOn (undefined, c) m a v = (a, inr (inl v))

update-GoesOn :
    (answers : ℕ → Answer) (m : ClientSocketMgr)
    → m.has_address ≡ true
    → GoesOn (update answers m).1
unfolding update
update-GoesOn answers m a = by_stopped m.stopped refl
  where
    on_client-GoesOn : (o : Option ClientSocket) → GoesOn (on_client answers o (later updates m)).1
    on_client-GoesOn none = (a, inr (inl (OwesUpdate-later m.owed)))
    on_client-GoesOn (some c) =
        after_client-GoesOn (Loop.update answers c) (later updates m) a (OwesUpdate-later m.owed)

    by_stopped :
        (b : Bool)
        → m.stopped ≡ b
        → GoesOn (if b then (true, m) else on_client answers m.client_socket (later updates m)).1
    by_stopped true s = (a, inl s)
    by_stopped false s = on_client-GoesOn m.client_socket

disconnect-GoesOn : (m : ClientSocketMgr) → m.has_address ≡ true → GoesOn (disconnect m)
unfolding disconnect
disconnect-GoesOn m a = let_go-GoesOn m.client_socket
  where
    let_go-GoesOn :
        (o : Option ClientSocket) → GoesOn (let_go close_if_open o (record m { stopped = true }))
    let_go-GoesOn none = (a, inl refl)
    let_go-GoesOn (some c) = (a, inl refl)

try_connect-GoesOn :
    (k : ℕ) (tries : List (Option ClientSocket)) (m : ClientSocketMgr)
    → m.has_address ≡ true
    → GoesOn (try_connect k tries m)
try_connect-GoesOn zero tries m a = disconnect-GoesOn m a
try_connect-GoesOn (suc k) [] m a = disconnect-GoesOn m a
try_connect-GoesOn (suc k) (none ∷ tries) m a = try_connect-GoesOn k tries m a
try_connect-GoesOn (suc k) (some c ∷ tries) m a = replaces m.client_socket
  where
    replaces :
        (o : Option ClientSocket)
        → GoesOn (later updates (record (let_go (λ old. old) o m) { client_socket = some c }))
    replaces none = (a, inr (inl (OwesUpdate-later m.owed)))
    replaces (some old) = (a, inr (inl (OwesUpdate-later m.owed)))

-- A connection handler that runs when an update is owed as well, or the manager is stopped or has no
-- client.
on_connect-GoesOn :
    (k : ℕ) (tries : List (Option ClientSocket)) (m : ClientSocketMgr)
    → m.has_address ≡ true
    → ((m.stopped ≡ true) ⊎ (OwesUpdate m.owed ⊎ (m.client_socket ≡ none)))
    → GoesOn (on_connect k tries m)
unfolding on_connect
on_connect-GoesOn k tries m a v = elim (Bool-cases (has_open m.client_socket)) [
  | inl open_client ↦
      subst (λ b. GoesOn (if b then m else if m.has_address then try_connect k tries m else m))
        (sym open_client) (a, still open_client v)
  | inr no_open ↦
      subst (λ b. GoesOn (if b then m else if m.has_address then try_connect k tries m else m))
        (sym no_open)
        (subst (λ b. GoesOn (if b then try_connect k tries m else m)) (sym a)
          (try_connect-GoesOn k tries m a))
]
  where
    still :
        has_open m.client_socket ≡ true
        → ((m.stopped ≡ true) ⊎ (OwesUpdate m.owed ⊎ (m.client_socket ≡ none)))
        → ((m.stopped ≡ true)
            ⊎ (OwesUpdate m.owed ⊎ (OwesConnect m.owed × (m.client_socket ≡ none))))
    still h (inl s) = inl s
    still h (inr (inl u)) = inr (inl u)
    still h (inr (inr n)) = absurd (let c : false ≡ true = sym (ap has_open n) ∙ h in cc)

run_handler-GoesOn :
    (i : ℕ) (answers : ℕ → Answer) (tries : List (Option ClientSocket)) (m : ClientSocketMgr)
    → GoesOn m
    → GoesOn (run_handler (pick i m.owed).0 answers tries (record m { owed = (pick i m.owed).1 }))
unfolding run_handler
run_handler-GoesOn i answers tries m (a, v) = by_handler (pick i m.owed).0 refl
  where
    rest : ClientSocketMgr
    rest = record m { owed = (pick i m.owed).1 }

    left :
        (k : ℕ)
        → (pick i m.owed).0 ≡ some (connects k)
        → ((m.stopped ≡ true)
            ⊎ (OwesUpdate m.owed ⊎ (OwesConnect m.owed × (m.client_socket ≡ none))))
        → ((m.stopped ≡ true) ⊎ (OwesUpdate (pick i m.owed).1 ⊎ (m.client_socket ≡ none)))
    left k e (inl s) = inl s
    left k e (inr (inl u)) = inr (inl (OwesUpdate-pick i k m.owed e u))
    left k e (inr (inr (c, n))) = inr (inr n)

    by_handler :
        (h : Option Handler) → (pick i m.owed).0 ≡ h → GoesOn (run_handler h answers tries rest)
    by_handler none e =
        subst (λ hs. GoesOn (record m { owed = hs })) (sym (pick-none i m.owed e)) (a, v)
    by_handler (some updates) e = update-GoesOn answers rest a
    by_handler (some (connects k)) e = on_connect-GoesOn k tries rest a (left k e v)

step-GoesOn : (e : Event) (m : ClientSocketMgr) → GoesOn m → GoesOn (step e m)
unfolding step add_packet_to_queue
step-GoesOn (runs i answers tries) m v = run_handler-GoesOn i answers tries m v
step-GoesOn disconnects m v = disconnect-GoesOn m v.0
step-GoesOn (queues packet) m v = v

-- A manager that has an address and goes on does so in any sequence of events, whichever of the owed handlers
-- runs first, however the client's updates and the connections come out, and whenever the application
-- disconnects or queues packets: until it is stopped an update is owed to the timer, or it has no
-- client and a connection is owed.
pub run-GoesOn : (es : List Event) (m : ClientSocketMgr) → GoesOn m → GoesOn (run es m)
unfolding run
run-GoesOn [] m v = v
run-GoesOn (e ∷ es) m v = run-GoesOn es (step e m) (step-GoesOn e m v)
