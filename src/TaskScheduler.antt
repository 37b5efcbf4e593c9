-- ===== src/TaskScheduler.antt =====
-- src/common/Utilities/TaskScheduler.h and TaskScheduler.cpp: tasks that run when their time has
-- come. A time point or duration is a number of clock ticks that is not negative and does not
-- overflow. Tasks are shared objects: `memory` holds them by address, and the ordered container holds
-- addresses. A function object is a name; what it does when it is called is a parameter (World).
pub mod Context
pub mod Dispatch
pub mod Queue
pub mod Modify
pub mod Keeps
pub mod Running
pub mod Order
pub mod Ends
pub mod Asyncs
mod Runs
use warhead_discord_client.Common.{
  ℕ, suc, ◌+◌, ◌%◌, ◌^◌, Bool, true, false, not, Option, none, some, List, [], ◌∷◌, ◌++◌, ltb, ◌==◌,
  if◌then◌else◌,
}

pub record Task : Type 0 where
  pub end : ℕ
  pub duration : ℕ
  pub group : Option ℕ
  pub repeated : ℕ
  pub task : ℕ

abbrev pub group_is : ℕ → Option ℕ → Bool
group_is group none = false
group_is group (some own) = own == group

-- `Task::IsInGroup`
abbrev pub is_in_group : ℕ → Task → Bool
is_in_group group t = group_is group t.group

abbrev pub Memory : Type 0
Memory = ℕ → Task

abbrev pub update : Memory → ℕ → Task → Memory
update m a t b = if b == a then t else m b

-- `ran` lists the end of each task that was invoked, at the time of its invocation, the last first.
pub record TaskScheduler : Type 0 where
  pub now : ℕ
  pub memory : Memory
  pub next_address : ℕ
  pub task_holder : List ℕ
  pub async_holder : List ℕ
  pub ran : List ℕ

-- The order of the container: by the end of the task at an address.
abbrev pub end_at : Memory → ℕ → ℕ
end_at m a = (m a).end

-- `std::multiset::insert`: behind the tasks with the same end.
unfoldable pub insert : Memory → ℕ → List ℕ → List ℕ
insert m a [] = a ∷ []
insert m a (b ∷ bs) = if ltb (end_at m a) (end_at m b) then a ∷ b ∷ bs else b ∷ insert m a bs

unfoldable pub insert_all : Memory → List ℕ → List ℕ → List ℕ
unfolding insert
insert_all m [] bs = bs
insert_all m (a ∷ cache) bs = insert_all m cache (insert m a bs)

-- `TaskQueue::RemoveIf`: the tasks that stay.
unfoldable pub remove_if : (Task → Bool) → Memory → List ℕ → List ℕ
remove_if filter m [] = []
remove_if filter m (a ∷ rest) = elim (filter (m a)) [
  | true ↦ remove_if filter m rest
  | false ↦ a ∷ remove_if filter m rest
]

-- The loop of `TaskQueue::ModifyIf`, whose filter changes the tasks that it accepts: the tasks that
-- stay, the cache, and the memory.
unfoldable pub modify_loop :
    (Task → Bool) → (Task → Task) → List ℕ → Memory → List ℕ × List ℕ × Memory
modify_loop filter change [] m = ([], [], m)
modify_loop filter change (a ∷ rest) m = elim (filter (m a)) [
  | true ↦
      let (stay, cache, m') = modify_loop filter change rest (update m a (change (m a))) in
      (stay, a ∷ cache, m')
  | false ↦ let (stay, cache, m') = modify_loop filter change rest m in (a ∷ stay, cache, m')
]

unfoldable pub modify_if : (Task → Bool) → (Task → Task) → TaskScheduler → TaskScheduler
unfolding modify_loop insert_all
modify_if filter change s =
    let (stay, cache, m) = modify_loop filter change s.task_holder s.memory in
    record s { memory = m; task_holder = insert_all m cache stay }

-- `InsertTask` of the task at an address.
unfoldable pub insert_task : ℕ → TaskScheduler → TaskScheduler
unfolding insert
insert_task a s = record s { task_holder = insert s.memory a s.task_holder }

-- `ScheduleAt`, without and with a group.
unfoldable pub schedule_at : (end time : ℕ) → Option ℕ → ℕ → TaskScheduler → TaskScheduler
unfolding insert_task
schedule_at end time group task s = insert_task s.next_address (record s {
  memory =
      update s.memory s.next_address
        (record { end = end + time; duration = time; group = group; repeated = 0; task = task });
  next_address = s.next_address + 1;
})

unfoldable pub schedule : (time : ℕ) → Option ℕ → ℕ → TaskScheduler → TaskScheduler
unfolding schedule_at
schedule time group task s = schedule_at s.now time group task s

unfoldable pub async : ℕ → TaskScheduler → TaskScheduler
async callable s = record s { async_holder = s.async_holder ++ (callable ∷ []) }

unfoldable pub cancel_all : TaskScheduler → TaskScheduler
cancel_all s = record s { task_holder = []; async_holder = [] }

unfoldable pub cancel_group : ℕ → TaskScheduler → TaskScheduler
unfolding remove_if
cancel_group group s = record s {
  task_holder = remove_if (is_in_group group) s.memory s.task_holder;
}

unfoldable pub cancel_groups_of : List ℕ → TaskScheduler → TaskScheduler
unfolding cancel_group
cancel_groups_of [] s = s
cancel_groups_of (group ∷ groups) s = cancel_groups_of groups (cancel_group group s)

abbrev pub delayed : ℕ → Task → Task
delayed duration t = record t { end = t.end + duration }

abbrev pub ending : ℕ → Task → Task
ending end t = record t { end = end }

unfoldable pub delay_all : ℕ → TaskScheduler → TaskScheduler
unfolding modify_if
delay_all duration s = modify_if (λ t. true) (delayed duration) s

unfoldable pub delay_group : ℕ → ℕ → TaskScheduler → TaskScheduler
unfolding modify_if
delay_group group duration s = modify_if (is_in_group group) (delayed duration) s

unfoldable pub reschedule_all : ℕ → TaskScheduler → TaskScheduler
unfolding modify_if
reschedule_all duration s = modify_if (λ t. true) (ending (s.now + duration)) s

unfoldable pub reschedule_group : ℕ → ℕ → TaskScheduler → TaskScheduler
unfolding modify_if
reschedule_group group duration s = modify_if (is_in_group group) (ending (s.now + duration)) s

-- The calls that code makes on a scheduler.
pub data Call : Type 0 where
  schedules : (time : ℕ) → Option ℕ → ℕ → Call
  asyncs : ℕ → Call
  cancels_all : Call
  cancels_group : ℕ → Call
  cancels_groups_of : List ℕ → Call
  delays_all : ℕ → Call
  delays_group : ℕ → ℕ → Call
  reschedules_all : ℕ → Call
  reschedules_group : ℕ → ℕ → Call

unfoldable pub apply : Call → TaskScheduler → TaskScheduler
unfolding schedule async cancel_all cancel_group cancel_groups_of delay_all delay_group
    reschedule_all reschedule_group
apply (schedules time group task) s = schedule time group task s
apply (asyncs callable) s = async callable s
apply cancels_all s = cancel_all s
apply (cancels_group group) s = cancel_group group s
apply (cancels_groups_of groups) s = cancel_groups_of groups s
apply (delays_all duration) s = delay_all duration s
apply (delays_group group duration) s = delay_group group duration s
apply (reschedules_all duration) s = reschedule_all duration s
apply (reschedules_group group duration) s = reschedule_group group duration s

unfoldable pub apply_all : List Call → TaskScheduler → TaskScheduler
apply_all [] s = s
apply_all (c ∷ cs) s = apply_all cs (apply c s)
