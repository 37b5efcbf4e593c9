-- ===== src/TaskScheduler/Dispatch.antt =====
-- src/common/Utilities/TaskScheduler.cpp: `Update`, which runs what is due.
use warhead_discord_client.Common.{ℕ, zero, suc, ◌+◌, Bool, true, false, List, [], ◌∷◌, ltb}
use warhead_discord_client.TaskScheduler.{TaskScheduler, end_at, Call, apply_all}
use warhead_discord_client.TaskScheduler.Context.{
  TaskContext, ContextCall, Outcome, goes_on, context_calls,
}
use warhead_discord_client.TaskScheduler.Context

-- What the function objects do: the calls that a task makes, by its repeat counter, those of an
-- asynchronous callable, and what the validator answers the n-th time that it is asked.
pub record World : Type 0 where
  pub handler : ℕ → ℕ → List ContextCall
  pub callable : ℕ → List Call
  pub predicate : ℕ → Bool

-- How a dispatch ends: the callback is called; the validator aborts it; an assertion fails; `pop` on
-- an empty queue; or it still runs when the fuel is spent.
pub data Ending : Type 0 where
  finished aborted assert_failed undefined running : Ending

abbrev pub Run : Type 0
Run = Ending × TaskScheduler

-- `_asyncHolder.pop()`
abbrev pub pop_async : List ℕ → Bool × List ℕ
pop_async [] = (false, [])
pop_async (c ∷ cs) = (true, cs)

-- `_task_holder.Pop()` and `context.Invoke()`, with the address of the first task.
unfoldable pub invoke : World → ℕ → List ℕ → TaskScheduler → Outcome
unfolding context_calls
invoke w a rest s =
    let t = s.memory a in
    context_calls (w.handler t.task t.repeated) (record { task = a; consumed = false })
      (record s { task_holder = rest; ran = t.end ∷ s.ran })

-- What follows the invocation: the validator is asked for the k-th time.
abbrev pub after_invoke : World → ℕ → Outcome → (TaskScheduler → Run) → TaskScheduler → Run
after_invoke w k (goes_on c s) loop old = elim (w.predicate k) [
  | true ↦ loop s
  | false ↦ (aborted, s)
]
after_invoke w k Context.assert_failed loop old = (assert_failed, old)

-- One round of the loop over the tasks, where `loop` is what follows it.
unfoldable pub on_first : World → (TaskScheduler → Run) → ℕ → List ℕ → TaskScheduler → Run
unfolding invoke
on_first w loop k [] s = (finished, s)
on_first w loop k (a ∷ rest) s = elim (ltb s.now (end_at s.memory a)) [
  | true ↦ (finished, s)
  | false ↦ after_invoke w k (invoke w a rest s) loop s
]

-- The loop over the tasks that are due.
unfoldable pub task_loop : World → ℕ → ℕ → TaskScheduler → Run
unfolding on_first
task_loop w zero k s = (running, s)
task_loop w (suc fuel) k s = on_first w (task_loop w fuel (suc k)) k s.task_holder s

-- The asynchronous callables: each is called, and only then popped. New ones that it adds are called
-- in the same loop.
unfoldable pub on_async :
    World → (TaskScheduler → Run) → (TaskScheduler → Run) → ℕ → List ℕ → TaskScheduler → Run
unfolding apply_all
on_async w loop tasks k [] s = tasks s
on_async w loop tasks k (c ∷ cs) s =
    let s' = apply_all (w.callable c) s in
    let (popped, rest) = pop_async s'.async_holder in
    elim popped [
      | false ↦ (undefined, s')
      | true ↦ elim (w.predicate k) [
        | true ↦ loop (record s' { async_holder = rest })
        | false ↦ (aborted, record s' { async_holder = rest })
      ]
    ]

-- Both loops of `Dispatch`; the n-th question to the validator in the loop over the tasks follows
-- those in the first loop.
unfoldable pub async_loop : World → ℕ → ℕ → TaskScheduler → Run
unfolding on_async task_loop
async_loop w zero k s = (running, s)
async_loop w (suc fuel) k s =
    on_async w (async_loop w fuel (suc k)) (task_loop w (suc fuel) k) k s.async_holder s

unfoldable pub dispatch : World → ℕ → TaskScheduler → Run
unfolding async_loop
dispatch w fuel s = elim (w.predicate 0) [ true ↦ async_loop w fuel 1 s | false ↦ (aborted, s) ]

-- `Update` with a time difference.
unfoldable pub update : World → ℕ → ℕ → TaskScheduler → Run
unfolding dispatch
update w fuel difftime s = dispatch w fuel (record s { now = s.now + difftime })
