-- ===== src/TaskScheduler/Order.antt =====
-- src/common/Utilities/TaskScheduler.cpp: the order in which `Dispatch` runs tasks.
use warhead_discord_client.Common.{
  ℕ, zero, suc, ◌+◌, ◌≤◌, ◌<◌, ◌≡◌, refl, sym, ap, ◌∙◌, Bool, true, false, Bool-cases, inl, inr,
  subst, List, [], ◌∷◌, ltb, ltb→lt, arith, All,
}
use warhead_discord_client.TaskScheduler.{TaskScheduler, end_at, apply_all}
use warhead_discord_client.TaskScheduler.Context.{Outcome, goes_on, assert_failed}
use warhead_discord_client.TaskScheduler.Dispatch.{
  World, Ending, finished, aborted, undefined, running, Run, pop_async, invoke, after_invoke,
  on_first, task_loop, on_async, async_loop, dispatch, update,
}
use warhead_discord_client.TaskScheduler.Dispatch
use warhead_discord_client.TaskScheduler.Queue.{AllFrom, IsSorted, AllFrom-weaken, count}
use warhead_discord_client.TaskScheduler.Keeps.{IsOrdered, Keeps, apply_all-Keeps}
use warhead_discord_client.TaskScheduler.Running.{IsRunning, Goes, context_calls-Goes}

-- Ends of tasks, the last first, none after the next, all by a time.
abbrev pub RanBy : ℕ → List ℕ → Type 0
RanBy by [] = Unit {0}
RanBy by (x ∷ xs) = (x ≤ by) × RanBy x xs

RanBy-weaken : (b c : ℕ) (xs : List ℕ) → b ≤ c → RanBy b xs → RanBy c xs
RanBy-weaken b c [] h v = tt
RanBy-weaken b c (x ∷ xs) h v = (omega (arith, v.0), v.1)

RanBy-same : (b : ℕ) (xs ys : List ℕ) → xs ≡ ys → RanBy b ys → RanBy b xs
RanBy-same b xs ys e v = rw e v

-- What holds of a run from s.
pub record IsDispatched (s : TaskScheduler) (r : Run) : Type 0 where
  pub same_now : r.1.now ≡ s.now
  pub in_order : RanBy s.now r.1.ran
  pub valid : IsOrdered 0 r.1
  pub complete : r.0 ≡ finished → AllFrom r.1.memory (suc r.1.now) r.1.task_holder

-- Before each round: all that ran ended by `from`.
abbrev Ready : ℕ → TaskScheduler → Type 0
Ready from s = IsOrdered from s × RanBy from s.ran

abbrev Loops : (TaskScheduler → Run) → Type 0
Loops loop = (from : ℕ) (s : TaskScheduler) → Ready from s → IsDispatched s (loop s)

pub IsOrdered-weaken : (b c : ℕ) (s : TaskScheduler) → c ≤ b → IsOrdered b s → IsOrdered c s
IsOrdered-weaken b c s h v = record {
  sorted = v.sorted;
  allocated = v.allocated;
  distinct = v.distinct;
  later = AllFrom-weaken s.memory b c s.task_holder h v.later;
  passed = omega (arith, v.passed);
}

-- A run that stops where it is.
stops :
    (from : ℕ) (s : TaskScheduler) (e : Ending)
    → Ready from s
    → (e ≡ finished → AllFrom s.memory (suc s.now) s.task_holder)
    → IsDispatched s (e, s)
stops from s e (v, p) h = record {
  same_now = refl;
  in_order = RanBy-weaken from s.now s.ran v.passed p;
  valid = IsOrdered-weaken from 0 s (omega arith) v;
  complete = h;
}

-- A run that goes on from s'.
goes : (s s' : TaskScheduler) (r : Run) → s'.now ≡ s.now → IsDispatched s' r → IsDispatched s r
goes s s' r e v = record {
  same_now = v.same_now ∙ e;
  in_order = RanBy-weaken s'.now s.now r.1.ran (omega arith) v.in_order;
  valid = v.valid;
  complete = v.complete;
}

abbrev unfinished : Ending → Bool
unfinished finished = false
unfinished aborted = true
unfinished Dispatch.assert_failed = true
unfinished undefined = true
unfinished running = true

stops_early :
    (from : ℕ) (s : TaskScheduler) (e : Ending)
    → Ready from s
    → unfinished e ≡ true
    → IsDispatched s (e, s)
stops_early from s e v h =
    stops from s e v (λ f. absurd (let c : false ≡ true = ap unfinished (sym f) ∙ h in cc))

after_invoke-IsDispatched :
    (w : World) (k from : ℕ) (o : Outcome) (loop : TaskScheduler → Run) (s s₁ : TaskScheduler)
    (at : ℕ)
    → Ready at s
    → s₁.now ≡ s.now
    → RanBy from s₁.ran
    → Goes from s₁ o
    → Loops loop
    → IsDispatched s (after_invoke w k o loop s)
after_invoke-IsDispatched w k from (goes_on c s') loop s s₁ at v n p (g, n', r) f =
    let ready : Ready from s' = (g.ordered, RanBy-same from s'.ran s₁.ran r p) in
    elim (w.predicate k)
      as (λ b. IsDispatched s (elim b [ true ↦ loop s' | false ↦ (aborted, s') ])) [
        | true ↦ goes s s' (loop s') (n' ∙ n) (f from s' ready)
        | false ↦ goes s s' (aborted, s') (n' ∙ n) (stops_early from s' aborted ready refl)
      ]
after_invoke-IsDispatched w k from assert_failed loop s s₁ at v n p g f =
    stops_early at s Dispatch.assert_failed v refl

-- The first task of a sorted container is taken out.
pub taken-IsRunning :
    (from a : ℕ) (rest : List ℕ) (s : TaskScheduler) (ran : List ℕ)
    → IsOrdered from s
    → s.task_holder ≡ a ∷ rest
    → end_at s.memory a ≤ s.now
    → IsRunning
        (end_at s.memory a)
        (record { task = a; consumed = false })
        (record s { task_holder = rest; ran = ran })
taken-IsRunning from a rest s ran v e d =
    let sorted = subst (λ l. IsSorted s.memory l) e v.sorted in
    let allocated = subst (λ l. All (λ b. b < s.next_address) l) e v.allocated in
    let distinct = subst (λ l. (b : ℕ) → count b l ≤ 1) e v.distinct in
    record {
      ordered = record {
        sorted = sorted.1;
        allocated = allocated.1;
        distinct = λ b. omega (arith, distinct b);
        later = sorted.0;
        passed = d;
      };
      own = allocated.0;
      own_later = omega arith;
      unconsumed = λ f. let d = distinct a in ground arith;
    }

on_first-IsDispatched :
    (w : World) (loop : TaskScheduler → Run) (k from : ℕ) (xs : List ℕ) (s : TaskScheduler)
    → s.task_holder ≡ xs
    → Ready from s
    → Loops loop
    → IsDispatched s (on_first w loop k xs s)
unfolding on_first invoke
on_first-IsDispatched w loop k from [] s e v f =
    stops from s finished v (λ h. subst (λ l. AllFrom s.memory (suc s.now) l) (sym e) tt)
on_first-IsDispatched w loop k from (a ∷ rest) s e v f =
    elim (Bool-cases (ltb s.now (end_at s.memory a))) [
      | inl l ↦
          let h = ltb→lt s.now (end_at s.memory a) l in
          let sorted = subst (λ xs. IsSorted s.memory xs) e v.0.sorted in
          let all : AllFrom s.memory (suc s.now) (a ∷ rest) = (
            omega arith,
            AllFrom-weaken s.memory (end_at s.memory a) (suc s.now) rest (omega arith) sorted.0,
          ) in
          rw (l, on_first)
            (stops from s finished v
              (λ u. subst (λ xs. AllFrom s.memory (suc s.now) xs) (sym e) all))
      | inr l ↦
          let end = end_at s.memory a in
          let d : end ≤ s.now = ground arith in
          let first = subst (λ xs. AllFrom s.memory from xs) e v.0.later in
          let s₁ : TaskScheduler = record s { task_holder = rest; ran = end ∷ s.ran } in
          let g =
            context_calls-Goes end (w.handler (s.memory a).task (s.memory a).repeated)
              (record { task = a; consumed = false }) s₁
              (taken-IsRunning from a rest s (end ∷ s.ran) v.0 e d) in
          rw (l, on_first)
            (after_invoke-IsDispatched w k end _ loop s s₁ from v refl
              (omega arith, RanBy-weaken from end s.ran first.0 v.1) g f)
    ]

task_loop-IsDispatched : (w : World) (fuel k : ℕ) → Loops (task_loop w fuel k)
unfolding task_loop
task_loop-IsDispatched w zero k from s v = stops_early from s running v refl
task_loop-IsDispatched w (suc fuel) k from s v =
    on_first-IsDispatched w (task_loop w fuel (suc k)) k from s.task_holder s refl v
      (task_loop-IsDispatched w fuel (suc k))

Keeps-Ready : (from : ℕ) (s s' : TaskScheduler) → Ready from s → Keeps from s s' → Ready from s'
Keeps-Ready from s s' v k = (k.ordered, RanBy-same from s'.ran s.ran k.same_ran v.1)

-- Of the container nothing depends on the asynchronous callables.
Ready-asyncs :
    (from : ℕ) (s : TaskScheduler) (rest : List ℕ)
    → Ready from s
    → Ready from (record s { async_holder = rest })
Ready-asyncs from s rest v = (
  record {
    sorted = v.0.sorted;
    allocated = v.0.allocated;
    distinct = v.0.distinct;
    later = v.0.later;
    passed = v.0.passed;
  },
  v.1,
)

on_async-IsDispatched :
    (w : World) (loop tasks : TaskScheduler → Run) (k from : ℕ) (xs : List ℕ) (s : TaskScheduler)
    → Ready from s
    → Loops loop
    → Loops tasks
    → IsDispatched s (on_async w loop tasks k xs s)
unfolding on_async
on_async-IsDispatched w loop tasks k from [] s v f g = g from s v
on_async-IsDispatched w loop tasks k from (c ∷ cs) s v f g =
    let s' = apply_all (w.callable c) s in
    let kept = apply_all-Keeps from (w.callable c) s v.0 in
    let ready = Keeps-Ready from s s' v kept in
    let u : TaskScheduler = record s' { async_holder = (pop_async s'.async_holder).1 } in
    let left : Ready from u = Ready-asyncs from s' u.async_holder ready in
    elim (pop_async s'.async_holder).0
      as (λ b. IsDispatched s (elim b [
        | false ↦ (undefined, s')
        | true ↦ elim (w.predicate k) [ true ↦ loop u | false ↦ (aborted, u) ]
      ])) [
        | false ↦ goes s s' (undefined, s') kept.same_now (stops_early from s' undefined ready refl)
        | true ↦
            elim (w.predicate k)
              as (λ b. IsDispatched s (elim b [ true ↦ loop u | false ↦ (aborted, u) ])) [
                | true ↦ goes s u (loop u) kept.same_now (f from u left)
                | false ↦ goes s u (aborted, u) kept.same_now (stops_early from u aborted left refl)
              ]
      ]

async_loop-IsDispatched : (w : World) (fuel k : ℕ) → Loops (async_loop w fuel k)
unfolding async_loop
async_loop-IsDispatched w zero k from s v = stops_early from s running v refl
async_loop-IsDispatched w (suc fuel) k from s v =
    on_async-IsDispatched w (async_loop w fuel (suc k)) (task_loop w (suc fuel) k) k from
      s.async_holder s v (async_loop-IsDispatched w fuel (suc k))
      (task_loop-IsDispatched w (suc fuel) k)

dispatch-IsDispatched : (w : World) (fuel : ℕ) → Loops (dispatch w fuel)
unfolding dispatch
dispatch-IsDispatched w fuel from s v =
    elim (w.predicate 0)
      as (λ b. IsDispatched s (elim b [ true ↦ async_loop w fuel 1 s | false ↦ (aborted, s) ])) [
        | true ↦ async_loop-IsDispatched w fuel 1 from s v
        | false ↦ stops_early from s aborted v refl
      ]

-- One `Update` of a well-formed scheduler, whatever the running tasks and callables do to it and
-- however it ends: tasks run in the order of their ends, none before its end has come, and the scheduler
-- stays well formed at the new time. When the update ends regularly, no task that is left is due.
-- (`ran` has the tasks of this update, the last first.)
pub update-in_order :
    (w : World) (fuel difftime : ℕ) (s : TaskScheduler)
    → IsOrdered 0 s
    → s.ran ≡ []
    → IsDispatched (record s { now = s.now + difftime }) (update w fuel difftime s)
unfolding update
update-in_order w fuel difftime s v e =
    let ready : IsOrdered 0 (record s { now = s.now + difftime }) = record {
      sorted = v.sorted;
      allocated = v.allocated;
      distinct = v.distinct;
      later = v.later;
      passed = omega arith;
    } in
    dispatch-IsDispatched w fuel 0 (record s { now = s.now + difftime })
      (ready, RanBy-same 0 s.ran [] e tt)
