-- ===== src/TaskScheduler/Modify.antt =====
-- src/common/Utilities/TaskScheduler.cpp: `ModifyIf` keeps the order, whatever ends it changes.
use warhead_discord_client.Common.{
  ℕ, ◌+◌, ◌≤◌, ◌≡◌, refl, sym, ap, ◌∙◌, Bool, true, false, List, [], ◌∷◌, inl, inr, arith, All,
  Bool-cases, ℕ_discrete,
}
use warhead_discord_client.TaskScheduler.{
  Task, Memory, update, end_at, insert_all, remove_if, modify_loop,
}
use warhead_discord_client.TaskScheduler.Queue.{
  AllFrom, IsSorted, insert_all-IsSorted, insert_all-AllFrom, remove_if-IsSorted, remove_if-takes,
  remove_if-leaves, count, update_self, update_other, SameEnds, IsSorted-SameEnds,
}

-- The two steps of the loop.
module _ (filter : Task → Bool) (change : Task → Task) (a : ℕ) (rest : List ℕ) (m : Memory) where
  loop_takes :
      filter (m a) ≡ true
      → modify_loop filter change (a ∷ rest) m ≡ (
          let r = modify_loop filter change rest (update m a (change (m a))) in (r.0, a ∷ r.1, r.2))
  unfolding modify_loop
  loop_takes e = ground arith

  loop_leaves :
      filter (m a) ≡ false
      → modify_loop filter change (a ∷ rest) m
        ≡ (let r = modify_loop filter change rest m in (a ∷ r.0, r.1, r.2))
  unfolding modify_loop
  loop_leaves e = ground arith

-- Filters that look at nothing that the change touches.
module _ (filter : Task → Bool) (change : Task → Task)
    (stable : (t : Task) → filter (change t) ≡ filter t) where
  -- A memory that a prefix of the loop has changed.
  record Agrees (m m' : Memory) : Type 0 where
    test : (b : ℕ) → filter (m' b) ≡ filter (m b)
    kept : (b : ℕ) → filter (m b) ≡ false → m' b ≡ m b

  Agrees-step :
      (m m' : Memory) (a : ℕ)
      → Agrees m m'
      → filter (m' a) ≡ true
      → Agrees m (update m' a (change (m' a)))
  Agrees-step m m' a g e = record {
    test = λ b. elim (ℕ_discrete b a) [
      | yes p ↦
          ap filter (update_self m' a b (change (m' a)) p)
          ∙ stable (m' a)
          ∙ ap (λ c. filter (m' c)) (sym p)
          ∙ g.test b
      | no n ↦ ap filter (update_other m' a b (change (m' a)) n) ∙ g.test b
    ];
    kept = λ b h. elim (ℕ_discrete b a) [
      | yes p ↦ let c : true ≡ false = sym e ∙ ap (λ d. filter (m' d)) (sym p) ∙ g.test b ∙ h in cc
      | no n ↦ update_other m' a b (change (m' a)) n ∙ g.kept b h
    ];
  }

  modify_loop-Agrees :
      (xs : List ℕ) (m m' : Memory)
      → Agrees m m'
      → ((modify_loop filter change xs m').0 ≡ remove_if filter m xs)
        × Agrees m (modify_loop filter change xs m').2
  modify_loop-Agrees [] m m' g = unfold modify_loop remove_if in (refl, g)
  modify_loop-Agrees (x ∷ xs) m m' g = elim (Bool-cases (filter (m' x))) [
    | inl e ↦
        let r = modify_loop-Agrees xs m (update m' x (change (m' x))) (Agrees-step m m' x g e) in
        rw (loop_takes filter change x xs m' e)
          (r.0 ∙ sym (remove_if-takes filter m x xs (sym (g.test x) ∙ e)), r.1)
    | inr e ↦
        let r = modify_loop-Agrees xs m m' g in
        rw (loop_leaves filter change x xs m' e)
          (ap (λ l. x ∷ l) r.0 ∙ sym (remove_if-leaves filter m x xs (sym (g.test x) ∙ e)), r.1)
  ]

  -- What stays is sorted also by the new memory, in which it is unchanged.
  remove_if-moves :
      (m m' : Memory) (xs : List ℕ) → Agrees m m' → SameEnds m m' (remove_if filter m xs)
  remove_if-moves m m' [] g = unfold remove_if in tt
  remove_if-moves m m' (x ∷ xs) g = elim (Bool-cases (filter (m x))) [
    | inl e ↦ rw (remove_if-takes filter m x xs e) (remove_if-moves m m' xs g)
    | inr e ↦
        rw (remove_if-leaves filter m x xs e)
          (ap (λ (t : Task). t.end) (g.kept x e), remove_if-moves m m' xs g)
  ]

-- A change that keeps a bound keeps it in the whole memory, and for the tasks of both lists.
module _ (filter : Task → Bool) (change : Task → Task) (b : ℕ)
    (later : (t : Task) → b ≤ t.end → b ≤ (change t).end) where
  update-bound :
      (m : Memory) (x a : ℕ)
      → b ≤ end_at m a
      → b ≤ end_at m x
      → b ≤ end_at (update m x (change (m x))) a
  update-bound m x a h k = elim (ℕ_discrete a x) [
    | yes p ↦
        omega (arith, later (m x) k, ap (λ (t : Task). t.end) (update_self m x a (change (m x)) p))
    | no n ↦ omega (arith, ap (λ (t : Task). t.end) (update_other m x a (change (m x)) n))
  ]

  all_bound :
      (xs : List ℕ) (m : Memory) (x : ℕ)
      → AllFrom m b xs
      → b ≤ end_at m x
      → AllFrom (update m x (change (m x))) b xs
  all_bound [] m x v h = tt
  all_bound (y ∷ ys) m x v h = (update-bound m x y v.0 h, all_bound ys m x v.1 h)

  pub modify_loop-bound :
      (xs : List ℕ) (m : Memory) (a : ℕ)
      → AllFrom m b xs
      → b ≤ end_at m a
      → b ≤ end_at (modify_loop filter change xs m).2 a
  modify_loop-bound [] m a v h = unfold modify_loop in h
  modify_loop-bound (x ∷ xs) m a v h = elim (Bool-cases (filter (m x))) [
    | inl e ↦ rw (loop_takes filter change x xs m e) (
        modify_loop-bound xs (update m x (change (m x))) a (all_bound xs m x v.1 v.0)
          (update-bound m x a h v.0))
    | inr e ↦ rw (loop_leaves filter change x xs m e) (modify_loop-bound xs m a v.1 h)
  ]

  modify_loop-parts :
      (xs : List ℕ) (m m' : Memory)
      → AllFrom m' b xs
      → AllFrom m' b (modify_loop filter change xs m).0
        × AllFrom m' b (modify_loop filter change xs m).1
  modify_loop-parts [] m m' v = unfold modify_loop in (tt, tt)
  modify_loop-parts (x ∷ xs) m m' v = elim (Bool-cases (filter (m x))) [
    | inl e ↦
        let r = modify_loop-parts xs (update m x (change (m x))) m' v.1 in
        rw (loop_takes filter change x xs m e) (r.0, (v.0, r.1))
    | inr e ↦
        let r = modify_loop-parts xs m m' v.1 in
        rw (loop_leaves filter change x xs m e) ((v.0, r.0), r.1)
  ]

  all_after :
      (xs ys : List ℕ) (m : Memory)
      → AllFrom m b xs
      → AllFrom m b ys
      → AllFrom (modify_loop filter change xs m).2 b ys
  all_after xs [] m v w = tt
  all_after xs (y ∷ ys) m v w = (modify_loop-bound xs m y v w.0, all_after xs ys m v w.1)

  -- The container after `ModifyIf`.
  pub modified-AllFrom :
      (xs : List ℕ) (m : Memory)
      → AllFrom m b xs
      → (let r = modify_loop filter change xs m in AllFrom r.2 b (insert_all r.2 r.1 r.0))
  modified-AllFrom xs m v =
      let m' = (modify_loop filter change xs m).2 in
      let p = modify_loop-parts xs m m' (all_after xs xs m v v) in
      insert_all-AllFrom m' b _ _ p.1 p.0

pub modified-IsSorted :
    (filter : Task → Bool) (change : Task → Task)
    (stable : (t : Task) → filter (change t) ≡ filter t) (xs : List ℕ) (m : Memory)
    → IsSorted m xs
    → (let r = modify_loop filter change xs m in IsSorted r.2 (insert_all r.2 r.1 r.0))
modified-IsSorted filter change stable xs m v =
    let m' = (modify_loop filter change xs m).2 in
    let g =
      modify_loop-Agrees filter change stable xs m m
        (record { test = λ b. refl; kept = λ b h. refl }) in
    insert_all-IsSorted m' _ _ (
      rw g.0 (
        IsSorted-SameEnds m m' (remove_if filter m xs)
          (remove_if-moves filter change stable m m' xs g.1) (remove_if-IsSorted filter m xs v)))

-- The loop keeps each task, once or as often as it stood in the container.
pub count-modify_loop :
    (filter : Task → Bool) (change : Task → Task) (b : ℕ) (xs : List ℕ) (m : Memory)
    → count b (modify_loop filter change xs m).0 + count b (modify_loop filter change xs m).1
      ≡ count b xs
count-modify_loop filter change b [] m = unfold modify_loop in refl
count-modify_loop filter change b (x ∷ xs) m = elim (Bool-cases (filter (m x))) [
  | inl e ↦
      rw (loop_takes filter change x xs m e)
        (omega (arith, count-modify_loop filter change b xs (update m x (change (m x)))))
  | inr e ↦
      rw (loop_leaves filter change x xs m e)
        (omega (arith, count-modify_loop filter change b xs m))
]

pub modify_loop-All {κ} :
    (P : ℕ → Type κ) (filter : Task → Bool) (change : Task → Task) (xs : List ℕ) (m : Memory)
    → All P xs
    → All P (modify_loop filter change xs m).0 × All P (modify_loop filter change xs m).1
modify_loop-All P filter change [] m v = unfold modify_loop in (tt, tt)
modify_loop-All P filter change (x ∷ xs) m v = elim (Bool-cases (filter (m x))) [
  | inl e ↦
      let r = modify_loop-All P filter change xs (update m x (change (m x))) v.1 in
      rw (loop_takes filter change x xs m e) (r.0, (v.0, r.1))
  | inr e ↦
      let r = modify_loop-All P filter change xs m v.1 in
      rw (loop_leaves filter change x xs m e) ((v.0, r.0), r.1)
]
