-- ===== src/PacketQueue/Runs.antt =====
-- Concrete runs of the packet queue, and its theorems at concrete inputs.
use warhead_discord_client.Common.{ℕ, ◌≡◌, refl, false, some, List, [], ◌∷◌, ◌++◌, ltb}
use warhead_discord_client.PacketQueue.{empty_queue, get_next_packet_if}
use warhead_discord_client.PacketQueue.Order.{Event, adds, takes, takes_if, run, added, run-order}

abbrev history : List (Event ℕ)
history = adds 1 ∷ adds 2 ∷ takes ∷ takes_if (λ n. ltb n 2) ∷ adds 3 ∷ takes ∷ []

-- A check that fails leaves the packet in the queue and assigns it to the result all the same.
refused_is_assigned :
    get_next_packet_if (λ n. ltb n 2) (record { queue = 2 ∷ []; canceled = false })
    ≡ (false, some 2, record { queue = 2 ∷ []; canceled = false })
unfolding get_next_packet_if
refused_is_assigned = refl

run-order_example :
    (run history empty_queue).0 ++ (run history empty_queue).1.queue ≡ [] ++ added history
run-order_example = run-order history empty_queue
