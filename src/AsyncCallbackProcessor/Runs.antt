-- ===== src/AsyncCallbackProcessor/Runs.antt =====
-- Runs of the rounds of callbacks on callbacks that count, and the theorem at one of them.
use warhead_discord_client.Common.{
  ℕ, suc, ◌+◌, ◌≡◌, refl, ◌||◌, List, [], ◌∷◌, ltb, ◌==◌, if◌then◌else◌,
}
use warhead_discord_client.AsyncCallbackProcessor.{
  Invoked, AsyncCallbackProcessor, process_ready_callbacks,
}
use warhead_discord_client.AsyncCallbackProcessor.Rounds.{
  Event, adds, processes, count, run, done, added, run-Accounted,
}

-- Even callbacks are done at once; 2 adds 5 when it is invoked, and the shared number counts the calls.
abbrev answer : ℕ → ℕ → Invoked ℕ ℕ
answer t s = record {
  is_done = (t == 2) || (t == 4);
  added = if t == 2 then 5 ∷ [] else [];
  shared = suc s;
}

abbrev waiting : AsyncCallbackProcessor ℕ ℕ
waiting = record { callbacks = 1 ∷ 2 ∷ 3 ∷ 4 ∷ []; shared = 0 }

-- The new callback comes before those that were left.
one_round :
    process_ready_callbacks answer waiting ≡ record { callbacks = 5 ∷ 1 ∷ 3 ∷ []; shared = 4 }
unfolding process_ready_callbacks
one_round = refl

abbrev events : List (Event ℕ)
events = adds 7 ∷ processes ∷ processes ∷ []

run-Accounted_example :
    count (ltb 2) (done answer events waiting) + count (ltb 2) (run answer events waiting).callbacks
    ≡ count (ltb 2) waiting.callbacks + count (ltb 2) (added answer events waiting)
run-Accounted_example = run-Accounted answer events waiting (ltb 2)
