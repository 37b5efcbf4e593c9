-- ===== src/TaskScheduler/Running.antt =====
-- src/common/Utilities/TaskScheduler.cpp: what the calls of a running task keep.
use warhead_discord_client.Common.{
  ℕ, ◌≤◌, ◌<◌, ◌≡◌, refl, sym, ap, ◌∙◌, false, Bool-cases, inl, inr, Option, none, some, List, [],
  ◌∷◌, arith, ℕ_discrete,
}
use warhead_discord_client.TaskScheduler.{Task, Memory, TaskScheduler, end_at, insert_task}
use warhead_discord_client.TaskScheduler.Context.{
  TaskContext, ContextCall, repeats, repeats_same, schedules_after, sets_group, clears_group,
  dispatches, Outcome, goes_on, assert_failed, repeated_task, repeat, set_group_to, context_call,
  chain, context_calls,
}
use warhead_discord_client.TaskScheduler.Queue.{
  AllFrom-SameEnds, IsSorted-SameEnds, SameEnds, count, update_self, update_other,
}
use warhead_discord_client.TaskScheduler.Keeps.{
  IsOrdered, Keeps, inserted-IsOrdered, schedule_at-Keeps, apply-Keeps,
}

-- While a task runs: the scheduler, and the task of the context, which ends no earlier than `from`
-- and is not in the container before it is repeated.
pub record IsRunning (from : ℕ) (c : TaskContext) (s : TaskScheduler) : Type 0 where
  pub ordered : IsOrdered from s
  pub own : c.task < s.next_address
  pub own_later : from ≤ end_at s.memory c.task
  pub unconsumed : c.consumed ≡ false → count c.task s.task_holder ≡ 0

-- A run from s that has not come to an assertion: the invariant, and the same time and runs.
abbrev pub Goes : ℕ → TaskScheduler → Outcome → Type 0
Goes from s (goes_on c s') = IsRunning from c s' × (s'.now ≡ s.now) × (s'.ran ≡ s.ran)
Goes from s assert_failed = Unit {0}

Keeps-Goes :
    (from : ℕ) (c : TaskContext) (s s' : TaskScheduler)
    → IsRunning from c s
    → Keeps from s s'
    → Goes from s (goes_on c s')
Keeps-Goes from c s s' v k = (
  record {
    ordered = k.ordered;
    own = omega (arith, v.own, k.allocates);
    own_later = k.still_later c.task v.own v.own_later;
    unconsumed = λ e. k.absent c.task v.own (v.unconsumed e);
  },
  k.same_now,
  k.same_ran,
)

repeat-Goes :
    (from duration : ℕ) (c : TaskContext) (s : TaskScheduler)
    → IsRunning from c s
    → Goes from s (repeat duration c s)
unfolding repeat insert_task
repeat-Goes from duration c s v = elim (Bool-cases c.consumed) [
  | inl e ↦ rw e tt
  | inr e ↦
      let m = s.memory in
      let t = repeated_task duration (m c.task) in
      let l = v.own_later in
      rw e (
        record {
          ordered =
              inserted-IsOrdered from c.task s.next_address t s v.ordered (v.unconsumed e)
                (omega arith) (omega arith) v.own;
          own = v.own;
          own_later = omega (arith, ap (λ (u : Task). u.end) (update_self m c.task c.task t refl));
          unconsumed = λ f. absurd (ground arith);
        },
        refl,
        refl,
      )
]

-- A change of the group leaves every end as it is.
set_group_to-ends :
    (group : Option ℕ) (c : TaskContext) (s : TaskScheduler) (a : ℕ)
    → end_at (set_group_to group c s).memory a ≡ end_at s.memory a
set_group_to-ends group c s a =
    let t = record (s.memory c.task) { group = group } in
    elim (ℕ_discrete a c.task) [
      | yes p ↦
          ap (λ (u : Task). u.end) (update_self s.memory c.task a t p)
          ∙ ap (end_at s.memory) (sym p)
      | no n ↦ ap (λ (u : Task). u.end) (update_other s.memory c.task a t n)
    ]

all_same : (m m' : Memory) (xs : List ℕ) → ((a : ℕ) → end_at m' a ≡ end_at m a) → SameEnds m m' xs
all_same m m' [] h = tt
all_same m m' (x ∷ xs) h = (h x, all_same m m' xs h)

set_group_to-Keeps :
    (from : ℕ) (group : Option ℕ) (c : TaskContext) (s : TaskScheduler)
    → IsOrdered from s
    → Keeps from s (set_group_to group c s)
set_group_to-Keeps from group c s v =
    let e = set_group_to-ends group c s in
    let m' = (set_group_to group c s).memory in
    let same = all_same s.memory m' s.task_holder e in
    record {
      ordered = record {
        sorted = IsSorted-SameEnds s.memory m' s.task_holder same v.sorted;
        allocated = v.allocated;
        distinct = v.distinct;
        later = AllFrom-SameEnds s.memory m' from s.task_holder same v.later;
        passed = v.passed;
      };
      same_now = refl;
      same_ran = refl;
      allocates = omega arith;
      still_later = λ b l h. omega (arith, e b);
      absent = λ b l h. h;
    }

context_call-Goes :
    (from : ℕ) (call : ContextCall) (c : TaskContext) (s : TaskScheduler)
    → IsRunning from c s
    → Goes from s (context_call call c s)
unfolding context_call
context_call-Goes from (repeats duration) c s v = repeat-Goes from duration c s v
context_call-Goes from repeats_same c s v = repeat-Goes from (s.memory c.task).duration c s v
context_call-Goes from (schedules_after time group task) c s v =
    Keeps-Goes from c s _ v
      (schedule_at-Keeps from (end_at s.memory c.task) time group task s v.ordered v.own_later)
context_call-Goes from (sets_group group) c s v =
    Keeps-Goes from c s _ v (set_group_to-Keeps from (some group) c s v.ordered)
context_call-Goes from clears_group c s v =
    Keeps-Goes from c s _ v (set_group_to-Keeps from none c s v.ordered)
context_call-Goes from (dispatches call) c s v =
    Keeps-Goes from c s _ v (apply-Keeps from call s v.ordered)

after-Goes :
    (from : ℕ) (s s' : TaskScheduler) (o : Outcome)
    → s'.now ≡ s.now
    → s'.ran ≡ s.ran
    → Goes from s' o
    → Goes from s o
after-Goes from s s' (goes_on c t) n r (v, n', r') = (v, n' ∙ n, r' ∙ r)
after-Goes from s s' assert_failed n r g = tt

chain-Goes :
    (from : ℕ) (s : TaskScheduler) (o : Outcome) (k : TaskContext → TaskScheduler → Outcome)
    → Goes from s o
    → ((c : TaskContext) (s' : TaskScheduler) → IsRunning from c s' → Goes from s' (k c s'))
    → Goes from s (chain o k)
chain-Goes from s (goes_on c s') k (v, n, r) f = after-Goes from s s' (k c s') n r (f c s' v)
chain-Goes from s assert_failed k g f = tt

pub context_calls-Goes :
    (from : ℕ) (calls : List ContextCall) (c : TaskContext) (s : TaskScheduler)
    → IsRunning from c s
    → Goes from s (context_calls calls c s)
unfolding context_calls
context_calls-Goes from [] c s v = (v, refl, refl)
context_calls-Goes from (call ∷ calls) c s v =
    chain-Goes from s (context_call call c s) (context_calls calls)
      (context_call-Goes from call c s v) (context_calls-Goes from calls)
