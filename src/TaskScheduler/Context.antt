-- ===== src/TaskScheduler/Context.antt =====
-- src/common/Utilities/TaskScheduler.h and TaskScheduler.cpp: TaskContext, through which a running
-- task reaches its scheduler. The scheduler lives as long as the context, which is used only while its
-- task runs.
use warhead_discord_client.Common.{
  ℕ, ◌+◌, ◌%◌, ◌^◌, Bool, true, Option, none, some, List, [], ◌∷◌, if◌then◌else◌,
}
use warhead_discord_client.TaskScheduler.{
  Task, update, TaskScheduler, insert_task, schedule_at, Call, apply,
}

-- The task of a context by its address. All copies of a context share `consumed`.
pub record TaskContext : Type 0 where
  pub task : ℕ
  pub consumed : Bool

-- The calls that a task makes on its context; `repeats_randomly` and the like with a duration drawn at
-- random are calls with that duration.
pub data ContextCall : Type 0 where
  repeats : ℕ → ContextCall
  repeats_same : ContextCall
  schedules_after : (time : ℕ) → Option ℕ → ℕ → ContextCall
  sets_group : ℕ → ContextCall
  clears_group : ContextCall
  dispatches : Call → ContextCall

-- What a context and its scheduler come to; `assert_failed` is the assertion on a consumed context.
pub data Outcome : Type 0 where
  goes_on : TaskContext → TaskScheduler → Outcome
  assert_failed : Outcome

abbrev pub repeated_task : ℕ → Task → Task
repeated_task duration t = record t {
  duration = duration;
  end = t.end + duration;
  repeated = (t.repeated + 1) % 2 ^ 32;
}

-- `Repeat`: the task itself, with a later end, goes back into the container.
unfoldable pub repeat : ℕ → TaskContext → TaskScheduler → Outcome
unfolding insert_task
repeat duration c s =
    if c.consumed
    then assert_failed
    else goes_on (record c { consumed = true })
        (insert_task c.task
          (record s { memory = update s.memory c.task (repeated_task duration (s.memory c.task)) }))

abbrev pub set_group_to : Option ℕ → TaskContext → TaskScheduler → TaskScheduler
set_group_to group c s = record s {
  memory = update s.memory c.task (record (s.memory c.task) { group = group });
}

unfoldable pub context_call : ContextCall → TaskContext → TaskScheduler → Outcome
unfolding repeat schedule_at apply
context_call (repeats duration) c s = repeat duration c s
context_call repeats_same c s = repeat (s.memory c.task).duration c s
context_call (schedules_after time group task) c s =
    goes_on c (schedule_at (s.memory c.task).end time group task s)
context_call (sets_group group) c s = goes_on c (set_group_to (some group) c s)
context_call clears_group c s = goes_on c (set_group_to none c s)
context_call (dispatches call) c s = goes_on c (apply call s)

abbrev pub chain : Outcome → (TaskContext → TaskScheduler → Outcome) → Outcome
chain (goes_on c s) k = k c s
chain assert_failed k = assert_failed

-- The calls of a task in their order.
unfoldable pub context_calls : List ContextCall → TaskContext → TaskScheduler → Outcome
unfolding context_call
context_calls [] c s = goes_on c s
context_calls (call ∷ calls) c s = chain (context_call call c s) (context_calls calls)
