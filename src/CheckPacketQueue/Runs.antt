-- ===== src/CheckPacketQueue/Runs.antt =====
-- A run of the queue of packets with identifiers, and its theorem at it.
use warhead_discord_client.Common.{ℕ, ◌≡◌, refl, false, List, [], ◌∷◌, ◌++◌, length}
use warhead_discord_client.CheckPacketQueue.{
  CheckPacketQueue, empty_queue, packets, read_container, is_empty, destroy,
}
use warhead_discord_client.CheckPacketQueue.Leaks.{
  Event, adds, takes, cancels, run, added, run-destroy,
}

abbrev history : List (Event ℕ ℕ)
history = adds 1 10 ∷ adds 2 20 ∷ takes ∷ cancels ∷ adds 3 30 ∷ takes ∷ []

abbrev end_of : List (Event ℕ ℕ) → CheckPacketQueue ℕ ℕ
unfolding run
end_of es = (run es empty_queue).1

-- Two elements are left over, and packet 3 is deleted.
leaves_two : destroy (end_of history) ≡ (3 ∷ [], 2)
unfolding destroy end_of
leaves_two = refl

puts_back : is_empty (read_container (record { packet = 1; node_id = 1 } ∷ []) (end_of [])) ≡ false
unfolding is_empty read_container end_of
puts_back = refl

run-destroy_example :
    ((run history empty_queue).0 ++ (run history empty_queue).1.queue ≡ added history)
    × (destroy (run history empty_queue).1
        ≡ (packets (run history empty_queue).1.queue, length (run history empty_queue).0))
run-destroy_example = run-destroy history
