-- ===== src/TaskScheduler/Keeps.antt =====
-- src/common/Utilities/TaskScheduler.cpp: what every call on a scheduler keeps, also while a task runs.
use warhead_discord_client.Common.{
  ℕ, ◌+◌, ◌≤◌, ◌<◌, ◌≡◌, ◌≢◌, refl, sym, ap, ◌∙◌, Bool, true, Option, List, [], ◌∷◌, arith, All,
  ℕ_discrete,
}
use warhead_discord_client.TaskScheduler.{
  Task, Memory, update, TaskScheduler, end_at, modify_if, insert_task, schedule_at, remove_if,
  is_in_group, cancel_groups_of, cancel_group, delayed, ending, Call, apply, apply_all, schedules,
  asyncs, cancels_all, cancels_group, cancels_groups_of, delays_all, delays_group, reschedules_all,
  reschedules_group, modify_loop, insert_all, schedule, async, cancel_all, delay_all, delay_group,
  reschedule_all, reschedule_group,
}
use warhead_discord_client.TaskScheduler.Queue.{
  AllFrom, IsSorted, insert-AllFrom, insert-IsSorted, remove_if-All, remove_if-IsSorted, count,
  count-insert, count-insert_all, insert-All, insert_all-All, count-remove_if, absent-All,
  update_self, update_other, SameEnds, AllFrom-SameEnds, IsSorted-SameEnds,
}
use warhead_discord_client.TaskScheduler.Modify.{
  modify_loop-bound, modified-AllFrom, modified-IsSorted, count-modify_loop, modify_loop-All,
}

-- A scheduler whose tasks are sorted, allocated, and each once in the container; none ends before
-- `from`, which is not in the future.
pub record IsOrdered (from : ℕ) (s : TaskScheduler) : Type 0 where
  pub sorted : IsSorted s.memory s.task_holder
  pub allocated : All (λ a. a < s.next_address) s.task_holder
  pub distinct : (a : ℕ) → count a s.task_holder ≤ 1
  pub later : AllFrom s.memory from s.task_holder
  pub passed : from ≤ s.now

-- From s to s', seen from a task that is not in the container.
pub record Keeps (from : ℕ) (s s' : TaskScheduler) : Type 0 where
  pub ordered : IsOrdered from s'
  pub same_now : s'.now ≡ s.now
  pub same_ran : s'.ran ≡ s.ran
  pub allocates : s.next_address ≤ s'.next_address
  pub still_later :
      (a : ℕ) → a < s.next_address → from ≤ end_at s.memory a → from ≤ end_at s'.memory a
  pub absent : (a : ℕ) → a < s.next_address → count a s.task_holder ≡ 0 → count a s'.task_holder ≡ 0

unallocated-count : (a n : ℕ) (xs : List ℕ) → All (λ b. b < n) xs → n ≤ a → count a xs ≡ 0
unallocated-count a n [] v h = refl
unallocated-count a n (x ∷ xs) v h =
    let e = unallocated-count a n xs v.1 h in let l = v.0 in ground arith

pub other_ends :
    (m : Memory) (a : ℕ) (t : Task) (xs : List ℕ)
    → All (λ b. b ≢ a) xs
    → SameEnds m (update m a t) xs
other_ends m a t [] v = tt
other_ends m a t (x ∷ xs) v =
    (ap (λ (u : Task). u.end) (update_other m a x t v.0), other_ends m a t xs v.1)

All-below : (n n' : ℕ) (xs : List ℕ) → n ≤ n' → All (λ a. a < n) xs → All (λ a. a < n') xs
All-below n n' [] h v = tt
All-below n n' (x ∷ xs) h v = (omega (arith, v.0), All-below n n' xs h v.1)

-- A task that is not in the container is changed and goes into it.
pub inserted-IsOrdered :
    (from a n : ℕ) (t : Task) (s : TaskScheduler)
    → IsOrdered from s
    → count a s.task_holder ≡ 0
    → from ≤ t.end
    → s.next_address ≤ n
    → a < n
    → IsOrdered from (insert_task a (record s { memory = update s.memory a t; next_address = n }))
unfolding insert_task
inserted-IsOrdered from a n t s v h e l g =
    let m = update s.memory a t in
    let same = other_ends s.memory a t s.task_holder (absent-All a s.task_holder h) in
    let own = ap (λ (u : Task). u.end) (update_self s.memory a a t refl) in
    record {
      sorted =
          insert-IsSorted m a s.task_holder
            (IsSorted-SameEnds s.memory m s.task_holder same v.sorted);
      allocated =
          insert-All _ m a s.task_holder g (All-below s.next_address n s.task_holder l v.allocated);
      distinct = λ b. elim (ℕ_discrete a b) [
        | yes p ↦ rw (count-insert m b a s.task_holder) (rw (sym p) (ground arith))
        | no q ↦ rw (count-insert m b a s.task_holder) (let d = v.distinct b in ground arith)
      ];
      later =
          insert-AllFrom m from a s.task_holder (omega arith)
            (AllFrom-SameEnds s.memory m from s.task_holder same v.later);
      passed = v.passed;
    }

pub schedule_at-Keeps :
    (from end time : ℕ) (group : Option ℕ) (task : ℕ) (s : TaskScheduler)
    → IsOrdered from s
    → from ≤ end
    → Keeps from s (schedule_at end time group task s)
unfolding schedule_at insert_task
schedule_at-Keeps from end time group task s v h =
    let a = s.next_address in
    let t : Task = record {
      end = end + time;
      duration = time;
      group = group;
      repeated = 0;
      task = task;
    } in
    let z = unallocated-count a a s.task_holder v.allocated (omega arith) in
    record {
      ordered = inserted-IsOrdered from a (a + 1) t s v z (omega arith) (omega arith) (omega arith);
      same_now = refl;
      same_ran = refl;
      allocates = omega arith;
      still_later = λ b l e. elim (ℕ_discrete b a) [
        | yes p ↦ absurd (omega arith)
        | no q ↦ omega (arith, ap (λ (u : Task). u.end) (update_other s.memory a b t q))
      ];
      absent = λ b l e. rw (count-insert (update s.memory a t) b a s.task_holder) (ground arith);
    }

-- Calls that leave the memory and take tasks out.
removed-Keeps :
    (from : ℕ) (filter : Task → Bool) (s : TaskScheduler)
    → IsOrdered from s
    → Keeps from s (record s { task_holder = remove_if filter s.memory s.task_holder })
removed-Keeps from filter s v = record {
  ordered = record {
    sorted = remove_if-IsSorted filter s.memory s.task_holder v.sorted;
    allocated = remove_if-All _ filter s.memory s.task_holder v.allocated;
    distinct =
        λ b. let c = count-remove_if filter s.memory b s.task_holder in omega (arith, v.distinct b);
    later = remove_if-All _ filter s.memory s.task_holder v.later;
    passed = v.passed;
  };
  same_now = refl;
  same_ran = refl;
  allocates = omega arith;
  still_later = λ b l e. e;
  absent = λ b l e. omega (arith, count-remove_if filter s.memory b s.task_holder);
}

Keeps-refl : (from : ℕ) (s : TaskScheduler) → IsOrdered from s → Keeps from s s
Keeps-refl from s v = record {
  ordered = v;
  same_now = refl;
  same_ran = refl;
  allocates = omega arith;
  still_later = λ b l e. e;
  absent = λ b l e. e;
}

Keeps-trans : (from : ℕ) (s t u : TaskScheduler) → Keeps from s t → Keeps from t u → Keeps from s u
Keeps-trans from s t u p q = record {
  ordered = q.ordered;
  same_now = q.same_now ∙ p.same_now;
  same_ran = q.same_ran ∙ p.same_ran;
  allocates = omega (arith, p.allocates, q.allocates);
  still_later = λ b l e. q.still_later b (omega (arith, p.allocates)) (p.still_later b l e);
  absent = λ b l e. q.absent b (omega (arith, p.allocates)) (p.absent b l e);
}

cancel_groups_of-Keeps :
    (from : ℕ) (groups : List ℕ) (s : TaskScheduler)
    → IsOrdered from s
    → Keeps from s (cancel_groups_of groups s)
unfolding cancel_groups_of cancel_group
cancel_groups_of-Keeps from [] s v = Keeps-refl from s v
cancel_groups_of-Keeps from (g ∷ groups) s v =
    let k = removed-Keeps from (is_in_group g) s v in
    Keeps-trans from s (cancel_group g s) (cancel_groups_of groups (cancel_group g s)) k
      (cancel_groups_of-Keeps from groups (cancel_group g s) k.ordered)

-- `ModifyIf` with a filter that looks at nothing that the change touches, and a change that keeps
-- the bound.
modify_if-Keeps :
    (from : ℕ) (filter : Task → Bool) (change : Task → Task) (s : TaskScheduler)
    → ((t : Task) → filter (change t) ≡ filter t)
    → ((t : Task) → from ≤ t.end → from ≤ (change t).end)
    → IsOrdered from s
    → Keeps from s (modify_if filter change s)
unfolding modify_if
modify_if-Keeps from filter change s stable later v =
    let r = modify_loop filter change s.task_holder s.memory in
    let counts : (b : ℕ) → count b (insert_all r.2 r.1 r.0) ≡ count b s.task_holder = λ b. omega (
      arith,
      count-insert_all r.2 b r.1 r.0,
      count-modify_loop filter change b s.task_holder s.memory,
    ) in
    let all =
      modify_loop-All (λ a. a < s.next_address) filter change s.task_holder s.memory v.allocated in
    record {
      ordered = record {
        sorted = modified-IsSorted filter change stable s.task_holder s.memory v.sorted;
        allocated = insert_all-All _ r.2 r.1 r.0 all.1 all.0;
        distinct = λ b. omega (arith, counts b, v.distinct b);
        later = modified-AllFrom filter change from later s.task_holder s.memory v.later;
        passed = v.passed;
      };
      same_now = refl;
      same_ran = refl;
      allocates = omega arith;
      still_later =
          λ b l e. modify_loop-bound filter change from later s.task_holder s.memory b v.later e;
      absent = λ b l e. counts b ∙ e;
    }

async-Keeps : (from task : ℕ) (s : TaskScheduler) → IsOrdered from s → Keeps from s (async task s)
unfolding async
async-Keeps from task s v = record {
  ordered = record {
    sorted = v.sorted;
    allocated = v.allocated;
    distinct = v.distinct;
    later = v.later;
    passed = v.passed;
  };
  same_now = refl;
  same_ran = refl;
  allocates = omega arith;
  still_later = λ b l e. e;
  absent = λ b l e. e;
}

cancel_all-Keeps : (from : ℕ) (s : TaskScheduler) → IsOrdered from s → Keeps from s (cancel_all s)
unfolding cancel_all
cancel_all-Keeps from s v = record {
  ordered = record {
    sorted = tt;
    allocated = tt;
    distinct = λ b. omega arith;
    later = tt;
    passed = v.passed;
  };
  same_now = refl;
  same_ran = refl;
  allocates = omega arith;
  still_later = λ b l e. e;
  absent = λ b l e. refl;
}

pub apply-Keeps :
    (from : ℕ) (call : Call) (s : TaskScheduler) → IsOrdered from s → Keeps from s (apply call s)
unfolding apply schedule cancel_group delay_all delay_group reschedule_all reschedule_group
apply-Keeps from (schedules time group task) s v =
    schedule_at-Keeps from s.now time group task s v v.passed
apply-Keeps from (asyncs task) s v = async-Keeps from task s v
apply-Keeps from cancels_all s v = cancel_all-Keeps from s v
apply-Keeps from (cancels_group group) s v = removed-Keeps from (is_in_group group) s v
apply-Keeps from (cancels_groups_of groups) s v = cancel_groups_of-Keeps from groups s v
apply-Keeps from (delays_all d) s v =
    modify_if-Keeps from (λ t. true) (delayed d) s (λ t. refl) (λ t h. omega arith) v
apply-Keeps from (delays_group g d) s v =
    modify_if-Keeps from (is_in_group g) (delayed d) s (λ t. refl) (λ t h. omega arith) v
apply-Keeps from (reschedules_all d) s v =
    modify_if-Keeps from (λ t. true) (ending (s.now + d)) s (λ t. refl)
      (λ t h. omega (arith, v.passed)) v
apply-Keeps from (reschedules_group g d) s v =
    modify_if-Keeps from (is_in_group g) (ending (s.now + d)) s (λ t. refl)
      (λ t h. omega (arith, v.passed)) v

-- Any sequence of calls on a well-formed scheduler keeps it well formed: its tasks stay in the order
-- of their ends, each at most once, none ends before `from`, which is not in the future. The calls
-- run nothing and leave the time; a task outside the container stays outside and keeps its end's bound.
pub apply_all-Keeps :
    (from : ℕ) (calls : List Call) (s : TaskScheduler)
    → IsOrdered from s
    → Keeps from s (apply_all calls s)
unfolding apply_all
apply_all-Keeps from [] s v = Keeps-refl from s v
apply_all-Keeps from (c ∷ cs) s v =
    let k = apply-Keeps from c s v in
    Keeps-trans from s (apply c s) (apply_all cs (apply c s)) k
      (apply_all-Keeps from cs (apply c s) k.ordered)
