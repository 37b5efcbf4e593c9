-- ===== src/TaskScheduler/Runs.antt =====
-- Concrete runs of a scheduler, and its theorems at concrete inputs.
use warhead_discord_client.Common.{
  ℕ, zero, suc, ◌+◌, ◌≡◌, refl, inl, inr, true, false, none, some, List, [], ◌∷◌, ◌==◌, arith, All,
  if◌then◌else◌,
}
use warhead_discord_client.TaskScheduler.{
  TaskScheduler, Call, schedules, asyncs, cancels_all, cancels_group, delays_group, apply,
  apply_all,
}
use warhead_discord_client.TaskScheduler.Context.{ContextCall, repeats}
use warhead_discord_client.TaskScheduler.Dispatch.{World, finished, update}
use warhead_discord_client.TaskScheduler.Keeps.{IsOrdered, Keeps, apply_all-Keeps}
use warhead_discord_client.TaskScheduler.Order.{IsDispatched, update-in_order}
use warhead_discord_client.TaskScheduler.Ends.{RepeatsLater, update-ends}
use warhead_discord_client.TaskScheduler.Asyncs.{spares_asyncs}

abbrev fresh : TaskScheduler
fresh = record {
  now = 100;
  memory = λ a. record { end = 0; duration = 0; group = none; repeated = 0; task = 0 };
  next_address = 0;
  task_holder = [];
  async_holder = [];
  ran = [];
}

fresh-IsOrdered : IsOrdered 0 fresh
fresh-IsOrdered = record {
  sorted = tt;
  allocated = tt;
  distinct = λ a. omega arith;
  later = tt;
  passed = omega arith;
}

-- Three tasks, of which the first is put off behind the last.
abbrev three : List Call
three = schedules 5 (some 7) 1 ∷ schedules 3 none 2 ∷ schedules 20 none 3 ∷ delays_group 7 40 ∷ []

apply_all-Keeps_example : Keeps 0 fresh (apply_all three fresh)
apply_all-Keeps_example = apply_all-Keeps 0 three fresh fresh-IsOrdered

abbrev handlers : ℕ → ℕ → List ContextCall
handlers task repeated = if task == 2 then repeats 10 ∷ [] else []

handlers-RepeatsLater : (task repeated : ℕ) → RepeatsLater (handlers task repeated)
handlers-RepeatsLater task repeated =
    elim (task == 2) as (λ b. RepeatsLater (if b then repeats 10 ∷ [] else [])) [
      | true ↦ inr (10, omega arith, refl)
      | false ↦ inl refl
    ]

abbrev callables : ℕ → List Call
callables zero = asyncs 1 ∷ []
callables (suc n) = schedules 0 none 4 ∷ cancels_group 7 ∷ []

abbrev world : World
world = record { handler = handlers; callable = callables; predicate = λ n. true }

-- The second task runs at 103, 113 and 123, the third at 120; the first waits for 145.
runs_in_order : (update world 100 25 (apply_all three fresh)).1.ran ≡ 123 ∷ 120 ∷ 113 ∷ 103 ∷ []
unfolding update apply_all
runs_in_order = refl

update-in_order_example :
    IsDispatched
      (record (apply_all three fresh) { now = (apply_all three fresh).now + 25 })
      (update world 100 25 (apply_all three fresh))
unfolding apply_all apply
update-in_order_example =
    update-in_order world 100 25 (apply_all three fresh)
      (apply_all-Keeps 0 three fresh fresh-IsOrdered).ordered refl

update-ends_example : (update world 100 25 (apply_all three fresh)).0 ≡ finished
unfolding apply_all apply
update-ends_example =
    update-ends world 100 25 (apply_all three fresh)
      (apply_all-Keeps 0 three fresh fresh-IsOrdered).ordered refl (λ n. refl) handlers-RepeatsLater
      (omega arith)

-- Callables that call each other in turn: none is popped from an empty queue.
abbrev begun : TaskScheduler
begun = record fresh { async_holder = 0 ∷ [] }

callables-spare : (c : ℕ) → All (λ call. spares_asyncs call ≡ true) (callables c)
callables-spare zero = (refl, tt)
callables-spare (suc n) = (refl, (refl, tt))

abbrev cancelling : World
cancelling = record {
  handler = handlers;
  callable = λ c. schedules 1 none 4 ∷ cancels_all ∷ [];
  predicate = λ n. true;
}
