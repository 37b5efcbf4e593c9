-- ===== src/PcQueue/Runs.antt =====
-- A concrete run of the queue between producers and consumers, and its theorem there.
use warhead_discord_client.Common.{ℕ, refl, List, [], ◌∷◌, ◌++◌}
use warhead_discord_client.PcQueue.{created}
use warhead_discord_client.PcQueue.Order.{
  Event, pushes, pops, waiter_runs, cancels, run, pushed, Begins, run-Begins,
}

abbrev history : List (Event ℕ)
history =
    pushes 1
    ∷ waiter_runs
    ∷ waiter_runs
    ∷ pushes 2
    ∷ pushes 3
    ∷ pops
    ∷ cancels
    ∷ pushes 4
    ∷ pops
    ∷ []

run-Begins_example : Begins (created.queue ++ pushed history) (run history created).0
run-Begins_example = run-Begins history created refl
