-- ===== src/TaskScheduler/Ends.antt =====
-- src/common/Utilities/TaskScheduler.cpp: the loop over the tasks ends.
use warhead_discord_client.Common.{
  ℕ, zero, suc, ◌+◌, ◌-◌, ◌≤◌, ◌<◌, ◌≡◌, refl, sym, ap, ap₂, ◌∙◌, subst, true, false, Bool-cases,
  inl, inr, ◌⊎◌, List, [], ◌∷◌, ltb, arith,
}
use warhead_discord_client.TaskScheduler.{Task, Memory, TaskScheduler, end_at, insert, insert_task}
use warhead_discord_client.TaskScheduler
use warhead_discord_client.TaskScheduler.Context.{
  ContextCall, repeats, Outcome, goes_on, assert_failed, repeated_task, repeat, context_call,
  context_calls,
}
use warhead_discord_client.TaskScheduler.Dispatch.{
  World, finished, Run, invoke, after_invoke, on_first, task_loop, on_async, async_loop, dispatch,
  update,
}
use warhead_discord_client.TaskScheduler.Queue.{absent-All, update_self, SameEnds}
use warhead_discord_client.TaskScheduler.Keeps.{IsOrdered, other_ends, inserted-IsOrdered}
use warhead_discord_client.TaskScheduler.Running.{IsRunning}
use warhead_discord_client.TaskScheduler.Order.{taken-IsRunning, IsOrdered-weaken}

-- How far the tasks of a container lie in the past, a task that ends now counted once.
abbrev pub overdue : Memory → ℕ → List ℕ → ℕ
overdue m now [] = 0
overdue m now (a ∷ rest) = (suc now - end_at m a) + overdue m now rest

overdue-insert :
    (m : Memory) (now a : ℕ) (xs : List ℕ)
    → overdue m now (insert m a xs) ≡ (suc now - end_at m a) + overdue m now xs
unfolding insert
overdue-insert m now a [] = refl
overdue-insert m now a (x ∷ xs) = elim (Bool-cases (ltb (end_at m a) (end_at m x))) [
  | inl l ↦ rw l
  | inr l ↦ rw l (omega (arith, overdue-insert m now a xs))
]

overdue-SameEnds :
    (m m' : Memory) (now : ℕ) (xs : List ℕ)
    → SameEnds m m' xs
    → overdue m' now xs ≡ overdue m now xs
overdue-SameEnds m m' now [] h = refl
overdue-SameEnds m m' now (x ∷ xs) h =
    ap₂ (λ e r. (suc now - e) + r) h.0 (overdue-SameEnds m m' now xs h.1)

-- A task that repeats at all repeats later.
abbrev pub RepeatsLater : List ContextCall → Type 0
RepeatsLater calls = (calls ≡ []) ⊎ ((d : ℕ) × (1 ≤ d) × (calls ≡ repeats d ∷ []))

-- What a task that at most repeats comes to: a well-formed scheduler with fewer overdue ticks.
record Progress (s s' : TaskScheduler) (before : ℕ) : Type 0 where
  ordered : IsOrdered 0 s'
  same_now : s'.now ≡ s.now
  less : overdue s'.memory s'.now s'.task_holder < before

abbrev Progresses : TaskScheduler → ℕ → Outcome → Type 0
Progresses s before (goes_on c s') = Progress s s' before
Progresses s before assert_failed = ⊥

repeat-Progresses :
    (from d a before : ℕ) (s : TaskScheduler)
    → IsRunning from (record { task = a; consumed = false }) s
    → 1 ≤ d
    → end_at s.memory a ≤ s.now
    → (suc s.now - end_at s.memory a) + overdue s.memory s.now s.task_holder ≤ before
    → Progresses s before (context_calls (repeats d ∷ []) (record { task = a; consumed = false }) s)
unfolding context_calls context_call repeat insert_task
repeat-Progresses from d a before s v h e l =
    let t = repeated_task d (s.memory a) in
    let absent = v.unconsumed refl in
    let o = v.own_later in
    let in_order =
      inserted-IsOrdered from a s.next_address t s v.ordered absent (omega arith) (omega arith)
        v.own in
    let m = TaskScheduler.update s.memory a t in
    let own = ap (λ (u : Task). u.end) (update_self s.memory a a t refl) in
    let same =
      overdue-SameEnds s.memory m s.now s.task_holder
        (other_ends s.memory a t s.task_holder (absent-All a s.task_holder absent)) in
    let grown = overdue-insert m s.now a s.task_holder in
    record {
      ordered = IsOrdered-weaken from 0 _ (omega arith) in_order;
      same_now = refl;
      less = omega arith;
    }

calls-Progresses :
    (from a before : ℕ) (calls : List ContextCall) (s : TaskScheduler)
    → RepeatsLater calls
    → IsRunning from (record { task = a; consumed = false }) s
    → end_at s.memory a ≤ s.now
    → (suc s.now - end_at s.memory a) + overdue s.memory s.now s.task_holder ≤ before
    → Progresses s before (context_calls calls (record { task = a; consumed = false }) s)
unfolding context_calls
calls-Progresses from a before calls s (inl e) v p l =
    subst (λ cs. Progresses s before (context_calls cs (record { task = a; consumed = false }) s))
      (sym e)
      (record {
        ordered = IsOrdered-weaken from 0 s (omega arith) v.ordered;
        same_now = refl;
        less = omega arith;
      })
calls-Progresses from a before calls s (inr (d, h, e)) v p l =
    subst (λ cs. Progresses s before (context_calls cs (record { task = a; consumed = false }) s))
      (sym e) (repeat-Progresses from d a before s v h p l)

abbrev Ends : ℕ → (TaskScheduler → Run) → Type 0
Ends fuel loop =
    (s : TaskScheduler)
    → IsOrdered 0 s
    → overdue s.memory s.now s.task_holder < fuel
    → (loop s).0 ≡ finished

after_invoke-Ends :
    (w : World) (k fuel before : ℕ) (o : Outcome) (loop : TaskScheduler → Run)
    (old s : TaskScheduler)
    → ((n : ℕ) → w.predicate n ≡ true)
    → Ends fuel loop
    → Progresses s before o
    → before ≤ fuel
    → (after_invoke w k o loop old).0 ≡ finished
after_invoke-Ends w k fuel before (goes_on c s') loop old s all f p l =
    rw (all k, after_invoke) (f s' p.ordered (omega (arith, p.less)))
after_invoke-Ends w k fuel before assert_failed loop old s all f p l = absurd p

on_first-Ends :
    (w : World) (k fuel : ℕ) (xs : List ℕ) (loop : TaskScheduler → Run) (s : TaskScheduler)
    → ((n : ℕ) → w.predicate n ≡ true)
    → ((task repeated : ℕ) → RepeatsLater (w.handler task repeated))
    → Ends fuel loop
    → IsOrdered 0 s
    → s.task_holder ≡ xs
    → overdue s.memory s.now xs ≤ fuel
    → (on_first w loop k xs s).0 ≡ finished
unfolding on_first invoke
on_first-Ends w k fuel [] loop s all later f v e l = refl
on_first-Ends w k fuel (a ∷ rest) loop s all later f v e l =
    elim (Bool-cases (ltb s.now (end_at s.memory a))) [
      | inl b ↦ rw (b, on_first)
      | inr b ↦
          let d : end_at s.memory a ≤ s.now = ground arith in
          let ran = end_at s.memory a ∷ s.ran in
          let s₁ : TaskScheduler = record s { task_holder = rest; ran = ran } in
          let t = s.memory a in
          let p =
            calls-Progresses (end_at s.memory a) a fuel (w.handler t.task t.repeated) s₁
              (later t.task t.repeated) (taken-IsRunning 0 a rest s ran v e d) d l in
          rw (b, on_first) (after_invoke-Ends w k fuel fuel _ loop s s₁ all f p (omega arith))
    ]

task_loop-Ends :
    (w : World) (fuel k : ℕ)
    → ((n : ℕ) → w.predicate n ≡ true)
    → ((task repeated : ℕ) → RepeatsLater (w.handler task repeated))
    → Ends fuel (task_loop w fuel k)
unfolding task_loop
task_loop-Ends w zero k all later s v l = absurd (omega arith)
task_loop-Ends w (suc fuel) k all later s v l =
    on_first-Ends w k fuel s.task_holder (task_loop w fuel (suc k)) s all later
      (task_loop-Ends w fuel (suc k) all later) v refl (omega arith)

no_asyncs :
    (w : World) (loop tasks : TaskScheduler → Run) (k : ℕ) (xs : List ℕ) (s : TaskScheduler)
    → xs ≡ []
    → on_async w loop tasks k xs s ≡ tasks s
unfolding on_async
no_asyncs w loop tasks k [] s e = refl
no_asyncs w loop tasks k (x ∷ xs) s e = absurd (let c : x ∷ xs ≡ [] = e in cc)

-- An `Update` of a well-formed scheduler without asynchronous callables ends regularly, if the validator
-- never aborts and each task at most repeats itself with a duration of at least one tick: one round of
-- the loop for each overdue tick, and one more, are enough.
pub update-ends :
    (w : World) (fuel difftime : ℕ) (s : TaskScheduler)
    → IsOrdered 0 s
    → s.async_holder ≡ []
    → ((n : ℕ) → w.predicate n ≡ true)
    → ((task repeated : ℕ) → RepeatsLater (w.handler task repeated))
    → overdue s.memory (s.now + difftime) s.task_holder < fuel
    → (update w fuel difftime s).0 ≡ finished
unfolding update dispatch async_loop on_async
update-ends w zero difftime s v e all later l = absurd (omega arith)
update-ends w (suc fuel) difftime s v e all later l =
    let u : TaskScheduler = record s { now = s.now + difftime } in
    let ready : IsOrdered 0 u = record {
      sorted = v.sorted;
      allocated = v.allocated;
      distinct = v.distinct;
      later = v.later;
      passed = omega arith;
    } in
    rw (all 0, update, dispatch)
      (ap (λ (r : Run). r.0)
          (no_asyncs w (async_loop w fuel 2) (task_loop w (suc fuel) 1) 1 s.async_holder u e)
        ∙ task_loop-Ends w (suc fuel) 1 all later u ready l)
