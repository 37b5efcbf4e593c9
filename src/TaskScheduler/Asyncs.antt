-- ===== src/TaskScheduler/Asyncs.antt =====
-- src/common/Utilities/TaskScheduler.cpp: the asynchronous callables, which `Dispatch` pops after the call.
use warhead_discord_client.Common.{
  ℕ, zero, suc, ◌+◌, ◌≡◌, refl, sym, ap, ◌∙◌, subst, ltb, Bool, true, false, List, [], ◌∷◌, ◌++◌,
  All,
}
use warhead_discord_client.TaskScheduler.{
  TaskScheduler, modify_if, insert_task, schedule_at, cancel_group, cancel_groups_of, Call, apply,
  apply_all, schedules, asyncs, cancels_all, cancels_group, cancels_groups_of, delays_all,
  delays_group, reschedules_all, reschedules_group, schedule, async, cancel_all, delay_all,
  delay_group, reschedule_all, reschedule_group,
}
use warhead_discord_client.TaskScheduler.Context.{Outcome, goes_on, assert_failed}
use warhead_discord_client.TaskScheduler.Dispatch.{
  World, finished, aborted, undefined, running, Ending, Run, pop_async, invoke, after_invoke,
  on_first, task_loop, on_async, async_loop, dispatch, update,
}
use warhead_discord_client.TaskScheduler.Dispatch

abbrev pub is_defined : Ending → Bool
is_defined finished = true
is_defined aborted = true
is_defined Dispatch.assert_failed = true
is_defined undefined = false
is_defined running = true

-- A call that does not empty the queue of the callables.
abbrev pub spares_asyncs : Call → Bool
spares_asyncs (schedules time group task) = true
spares_asyncs (asyncs callable) = true
spares_asyncs cancels_all = false
spares_asyncs (cancels_group group) = true
spares_asyncs (cancels_groups_of groups) = true
spares_asyncs (delays_all duration) = true
spares_asyncs (delays_group group duration) = true
spares_asyncs (reschedules_all duration) = true
spares_asyncs (reschedules_group group duration) = true

-- The queue of the callables still begins with a callable.
abbrev FirstIs : ℕ → TaskScheduler → Type 0
FirstIs c s = (cs : List ℕ) × (s.async_holder ≡ c ∷ cs)

cancel_groups_of-asyncs :
    (groups : List ℕ) (s : TaskScheduler)
    → (cancel_groups_of groups s).async_holder ≡ s.async_holder
unfolding cancel_groups_of cancel_group
cancel_groups_of-asyncs [] s = refl
cancel_groups_of-asyncs (g ∷ groups) s = cancel_groups_of-asyncs groups (cancel_group g s)

apply-FirstIs :
    (c : ℕ) (call : Call) (s : TaskScheduler)
    → spares_asyncs call ≡ true
    → FirstIs c s
    → FirstIs c (apply call s)
unfolding apply schedule schedule_at insert_task async cancel_group delay_all delay_group
    reschedule_all reschedule_group modify_if
apply-FirstIs c (schedules time group task) s h f = f
apply-FirstIs c (asyncs callable) s h (cs, e) =
    (cs ++ (callable ∷ []), ap (λ xs. xs ++ (callable ∷ [])) e)
apply-FirstIs c cancels_all s h f = absurd (let e : false ≡ true = h in cc)
apply-FirstIs c (cancels_group group) s h f = f
apply-FirstIs c (cancels_groups_of groups) s h (cs, e) = (cs, cancel_groups_of-asyncs groups s ∙ e)
apply-FirstIs c (delays_all d) s h f = f
apply-FirstIs c (delays_group g d) s h f = f
apply-FirstIs c (reschedules_all d) s h f = f
apply-FirstIs c (reschedules_group g d) s h f = f

apply_all-FirstIs :
    (c : ℕ) (calls : List Call) (s : TaskScheduler)
    → All (λ call. spares_asyncs call ≡ true) calls
    → FirstIs c s
    → FirstIs c (apply_all calls s)
unfolding apply_all
apply_all-FirstIs c [] s h f = f
apply_all-FirstIs c (call ∷ calls) s h f =
    apply_all-FirstIs c calls (apply call s) h.1 (apply-FirstIs c call s h.0 f)

abbrev Defined : Run → Type 0
Defined r = is_defined r.0 ≡ true

abbrev AllDefined : (TaskScheduler → Run) → Type 0
AllDefined loop = (s : TaskScheduler) → Defined (loop s)

after_invoke-Defined :
    (w : World) (k : ℕ) (o : Outcome) (loop : TaskScheduler → Run) (s : TaskScheduler)
    → AllDefined loop
    → Defined (after_invoke w k o loop s)
after_invoke-Defined w k (goes_on c s') loop s f =
    elim (w.predicate k) as (λ b. Defined (elim b [ true ↦ loop s' | false ↦ (aborted, s') ])) [
      | true ↦ f s'
      | false ↦ refl
    ]
after_invoke-Defined w k assert_failed loop s f = refl

on_first-Defined :
    (w : World) (loop : TaskScheduler → Run) (k : ℕ) (xs : List ℕ) (s : TaskScheduler)
    → AllDefined loop
    → Defined (on_first w loop k xs s)
unfolding on_first
on_first-Defined w loop k [] s f = refl
on_first-Defined w loop k (a ∷ rest) s f =
    elim (ltb s.now (s.memory a).end)
      as (λ b.
        Defined
          (elim b [ true ↦ (finished, s) | false ↦ after_invoke w k (invoke w a rest s) loop s ])) [
            | true ↦ refl
            | false ↦ after_invoke-Defined w k (invoke w a rest s) loop s f
          ]

task_loop-defined : (w : World) (fuel k : ℕ) → AllDefined (task_loop w fuel k)
unfolding task_loop
task_loop-defined w zero k s = refl
task_loop-defined w (suc fuel) k s =
    on_first-Defined w (task_loop w fuel (suc k)) k s.task_holder s
      (task_loop-defined w fuel (suc k))

module _ (w : World)
    (spares : (c : ℕ) → All (λ call. spares_asyncs call ≡ true) (w.callable c)) where
  on_async-Defined :
      (loop tasks : TaskScheduler → Run) (k : ℕ) (xs : List ℕ) (s : TaskScheduler)
      → s.async_holder ≡ xs
      → AllDefined loop
      → AllDefined tasks
      → Defined (on_async w loop tasks k xs s)
  unfolding on_async
  on_async-Defined loop tasks k [] s e f g = g s
  on_async-Defined loop tasks k (c ∷ cs) s e f g =
      let s' = apply_all (w.callable c) s in
      let (left, q) = apply_all-FirstIs c (w.callable c) s (spares c) (cs, e) in
      subst
        (λ p. Defined (elim p.0 [
          | false ↦ (undefined, s')
          | true ↦ elim (w.predicate k) [
            | true ↦ loop (record s' { async_holder = p.1 })
            | false ↦ (aborted, record s' { async_holder = p.1 })
          ]
        ]))
        (sym (ap pop_async q))
        (elim (w.predicate k)
          as (λ b. Defined (elim b [
            | true ↦ loop (record s' { async_holder = left })
            | false ↦ (aborted, record s' { async_holder = left })
          ])) [ true ↦ f (record s' { async_holder = left }) | false ↦ refl ])

  async_loop-defined : (fuel k : ℕ) → AllDefined (async_loop w fuel k)
  unfolding async_loop
  async_loop-defined zero k s = refl
  async_loop-defined (suc fuel) k s =
      on_async-Defined (async_loop w fuel (suc k)) (task_loop w (suc fuel) k) k s.async_holder s
        refl (async_loop-defined fuel (suc k)) (task_loop-defined w (suc fuel) k)

  -- If no asynchronous callable calls `CancelAll`, no `Update` of any scheduler pops an empty queue,
  -- whatever else the callables and the tasks do.
  update-defined :
      (fuel difftime : ℕ) (s : TaskScheduler) → is_defined (update w fuel difftime s).0 ≡ true
  unfolding update dispatch
  update-defined fuel difftime s =
      let u : TaskScheduler = record s { now = s.now + difftime } in
      elim (w.predicate 0)
        as (λ b. Defined (elim b [ true ↦ async_loop w fuel 1 u | false ↦ (aborted, u) ])) [
          | true ↦ async_loop-defined fuel 1 u
          | false ↦ refl
        ]

cancelled :
    (calls : List Call) (s : TaskScheduler)
    → (apply_all (calls ++ (cancels_all ∷ [])) s).async_holder ≡ []
unfolding apply_all apply cancel_all
cancelled [] s = refl
cancelled (call ∷ calls) s = cancelled calls (apply call s)

-- What `on_async` goes on with.
abbrev after_pop : World → (TaskScheduler → Run) → ℕ → TaskScheduler → Bool × List ℕ → Run
after_pop w loop k s' p = elim p.0 [
  | false ↦ (undefined, s')
  | true ↦ elim (w.predicate k) [
    | true ↦ loop (record s' { async_holder = p.1 })
    | false ↦ (aborted, record s' { async_holder = p.1 })
  ]
]

on_async-pops_empty :
    (w : World) (loop tasks : TaskScheduler → Run) (k c : ℕ) (cs : List ℕ) (s : TaskScheduler)
    → (apply_all (w.callable c) s).async_holder ≡ []
    → (on_async w loop tasks k (c ∷ cs) s).0 ≡ undefined
unfolding on_async
on_async-pops_empty w loop tasks k c cs s e =
    ap (λ p. (after_pop w loop k (apply_all (w.callable c) s) p).0) (ap pop_async e)

-- When the first asynchronous callable calls `CancelAll` as its last call, an `Update` that the
-- validator lets begin comes to `pop` on an empty queue.
cancelling-undefined :
    (w : World) (fuel difftime c : ℕ) (cs : List ℕ) (calls : List Call) (s : TaskScheduler)
    → w.predicate 0 ≡ true
    → s.async_holder ≡ c ∷ cs
    → w.callable c ≡ calls ++ (cancels_all ∷ [])
    → (update w (suc fuel) difftime s).0 ≡ undefined
unfolding update dispatch async_loop
cancelling-undefined w fuel difftime c cs calls s p e h =
    let u : TaskScheduler = record s { now = s.now + difftime } in
    let empty = ap (λ cl. (apply_all cl u).async_holder) h ∙ cancelled calls u in
    rw (p, update, dispatch)
      (subst
        (λ xs. (on_async w (async_loop w fuel 2) (task_loop w (suc fuel) 1) 1 xs u).0 ≡ undefined)
        (sym e)
        (on_async-pops_empty w (async_loop w fuel 2) (task_loop w (suc fuel) 1) 1 c cs u empty))
