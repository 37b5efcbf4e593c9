-- ===== src/TaskScheduler/Queue.antt =====
-- src/common/Utilities/TaskScheduler.cpp: the container stays ordered, and no end falls below a bound.
use warhead_discord_client.Common.{
  ℕ, ◌+◌, ◌≤◌, ◌≡◌, ◌≢◌, refl, Bool, true, false, List, [], ◌∷◌, ltb, ltb→lt, ◌==◌, if◌then◌else◌,
  inl, inr, arith, All, Bool-cases,
}
use warhead_discord_client.TaskScheduler.{
  Task, Memory, update, end_at, insert, insert_all, remove_if,
}

-- Every task of the list ends at b or later.
abbrev pub AllFrom : Memory → ℕ → List ℕ → Type 0
AllFrom m b xs = All (λ a. b ≤ end_at m a) xs

abbrev pub IsSorted : Memory → List ℕ → Type 0
IsSorted m [] = Unit {0}
IsSorted m (a ∷ rest) = AllFrom m (end_at m a) rest × IsSorted m rest

pub AllFrom-weaken : (m : Memory) (b c : ℕ) (xs : List ℕ) → c ≤ b → AllFrom m b xs → AllFrom m c xs
AllFrom-weaken m b c [] h v = tt
AllFrom-weaken m b c (x ∷ xs) h v = (omega (arith, v.0), AllFrom-weaken m b c xs h v.1)

pub insert-AllFrom :
    (m : Memory) (b a : ℕ) (xs : List ℕ)
    → b ≤ end_at m a
    → AllFrom m b xs
    → AllFrom m b (insert m a xs)
unfolding insert
insert-AllFrom m b a [] h v = (h, tt)
insert-AllFrom m b a (x ∷ xs) h v = elim (Bool-cases (ltb (end_at m a) (end_at m x))) [
  | inl l ↦ rw l (h, v)
  | inr l ↦ rw l (v.0, insert-AllFrom m b a xs h v.1)
]

pub insert-IsSorted :
    (m : Memory) (a : ℕ) (xs : List ℕ) → IsSorted m xs → IsSorted m (insert m a xs)
unfolding insert
insert-IsSorted m a [] v = (tt, tt)
insert-IsSorted m a (x ∷ xs) v = elim (Bool-cases (ltb (end_at m a) (end_at m x))) [
  | inl l ↦
      let h = ltb→lt (end_at m a) (end_at m x) l in
      rw l ((omega arith, AllFrom-weaken m (end_at m x) (end_at m a) xs (omega arith) v.0), v)
  | inr l ↦
      let h : end_at m x ≤ end_at m a = ground arith in
      rw l (insert-AllFrom m (end_at m x) a xs h v.0, insert-IsSorted m a xs v.1)
]

pub insert_all-IsSorted :
    (m : Memory) (cache xs : List ℕ) → IsSorted m xs → IsSorted m (insert_all m cache xs)
unfolding insert_all
insert_all-IsSorted m [] xs v = v
insert_all-IsSorted m (a ∷ cache) xs v =
    insert_all-IsSorted m cache (insert m a xs) (insert-IsSorted m a xs v)

pub insert_all-AllFrom :
    (m : Memory) (b : ℕ) (cache xs : List ℕ)
    → AllFrom m b cache
    → AllFrom m b xs
    → AllFrom m b (insert_all m cache xs)
unfolding insert_all
insert_all-AllFrom m b [] xs h v = v
insert_all-AllFrom m b (a ∷ cache) xs h v =
    insert_all-AllFrom m b cache (insert m a xs) h.1 (insert-AllFrom m b a xs h.0 v)

-- Removal.
pub remove_if-All {κ} :
    (P : ℕ → Type κ) (filter : Task → Bool) (m : Memory) (xs : List ℕ)
    → All P xs
    → All P (remove_if filter m xs)
unfolding remove_if
remove_if-All P filter m [] v = tt
remove_if-All P filter m (x ∷ xs) v =
    elim (filter (m x))
      as (λ c.
        All P (elim c [ true ↦ remove_if filter m xs | false ↦ x ∷ remove_if filter m xs ])) [
          | true ↦ remove_if-All P filter m xs v.1
          | false ↦ (v.0, remove_if-All P filter m xs v.1)
        ]

pub remove_if-IsSorted :
    (filter : Task → Bool) (m : Memory) (xs : List ℕ)
    → IsSorted m xs
    → IsSorted m (remove_if filter m xs)
unfolding remove_if
remove_if-IsSorted filter m [] v = tt
remove_if-IsSorted filter m (x ∷ xs) v =
    elim (filter (m x))
      as (λ c.
        IsSorted m (elim c [ true ↦ remove_if filter m xs | false ↦ x ∷ remove_if filter m xs ])) [
          | true ↦ remove_if-IsSorted filter m xs v.1
          | false ↦ (remove_if-All _ filter m xs v.0, remove_if-IsSorted filter m xs v.1)
        ]

-- How often an address stands in the container.
abbrev pub count : ℕ → List ℕ → ℕ
count a [] = 0
count a (x ∷ xs) = (if x == a then 1 else 0) + count a xs

abbrev pub once : ℕ → ℕ → ℕ
once b a = if a == b then 1 else 0

pub count-insert :
    (m : Memory) (b a : ℕ) (xs : List ℕ) → count b (insert m a xs) ≡ once b a + count b xs
unfolding insert
count-insert m b a [] = refl
count-insert m b a (x ∷ xs) = elim (Bool-cases (ltb (end_at m a) (end_at m x))) [
  | inl l ↦ rw l
  | inr l ↦ rw l (omega (arith, count-insert m b a xs))
]

pub count-insert_all :
    (m : Memory) (b : ℕ) (cache xs : List ℕ)
    → count b (insert_all m cache xs) ≡ count b cache + count b xs
unfolding insert_all
count-insert_all m b [] xs = omega arith
count-insert_all m b (a ∷ cache) xs =
    omega (arith, count-insert_all m b cache (insert m a xs), count-insert m b a xs)

pub insert-All {κ} :
    (P : ℕ → Type κ) (m : Memory) (a : ℕ) (xs : List ℕ) → P a → All P xs → All P (insert m a xs)
unfolding insert
insert-All P m a [] h v = (h, tt)
insert-All P m a (x ∷ xs) h v = elim (Bool-cases (ltb (end_at m a) (end_at m x))) [
  | inl l ↦ rw l (h, v)
  | inr l ↦ rw l (v.0, insert-All P m a xs h v.1)
]

pub insert_all-All {κ} :
    (P : ℕ → Type κ) (m : Memory) (cache xs : List ℕ)
    → All P cache
    → All P xs
    → All P (insert_all m cache xs)
unfolding insert_all
insert_all-All P m [] xs h v = v
insert_all-All P m (a ∷ cache) xs h v =
    insert_all-All P m cache (insert m a xs) h.1 (insert-All P m a xs h.0 v)

pub remove_if-takes :
    (filter : Task → Bool) (m : Memory) (a : ℕ) (rest : List ℕ)
    → filter (m a) ≡ true
    → remove_if filter m (a ∷ rest) ≡ remove_if filter m rest
unfolding remove_if
remove_if-takes filter m a rest e = ground arith

pub remove_if-leaves :
    (filter : Task → Bool) (m : Memory) (a : ℕ) (rest : List ℕ)
    → filter (m a) ≡ false
    → remove_if filter m (a ∷ rest) ≡ a ∷ remove_if filter m rest
unfolding remove_if
remove_if-leaves filter m a rest e = ground arith

pub count-remove_if :
    (filter : Task → Bool) (m : Memory) (b : ℕ) (xs : List ℕ)
    → count b (remove_if filter m xs) ≤ count b xs
count-remove_if filter m b [] = unfold remove_if in omega arith
count-remove_if filter m b (x ∷ xs) = elim (Bool-cases (filter (m x))) [
  | inl e ↦ rw (remove_if-takes filter m x xs e) (omega (arith, count-remove_if filter m b xs))
  | inr e ↦ rw (remove_if-leaves filter m x xs e) (omega (arith, count-remove_if filter m b xs))
]

-- An address that does not occur differs from all that do.
pub absent-All : (a : ℕ) (xs : List ℕ) → count a xs ≡ 0 → All (λ b. b ≢ a) xs
absent-All a [] h = tt
absent-All a (x ∷ xs) h = (λ e. absurd (ground arith), absent-All a xs (omega arith))

pub update_self : (m : Memory) (a b : ℕ) (t : Task) → b ≡ a → update m a t b ≡ t
update_self m a b t h = ground arith

pub update_other : (m : Memory) (a b : ℕ) (t : Task) → b ≢ a → update m a t b ≡ m b
update_other m a b t h = ground arith

-- A memory that agrees on the ends of the tasks of a list.
abbrev pub SameEnds : Memory → Memory → List ℕ → Type 0
SameEnds m m' xs = All (λ a. end_at m' a ≡ end_at m a) xs

pub AllFrom-SameEnds :
    (m m' : Memory) (b : ℕ) (xs : List ℕ) → SameEnds m m' xs → AllFrom m b xs → AllFrom m' b xs
AllFrom-SameEnds m m' b [] s v = tt
AllFrom-SameEnds m m' b (x ∷ xs) s v = (omega (arith, v.0, s.0), AllFrom-SameEnds m m' b xs s.1 v.1)

pub IsSorted-SameEnds :
    (m m' : Memory) (xs : List ℕ) → SameEnds m m' xs → IsSorted m xs → IsSorted m' xs
IsSorted-SameEnds m m' [] s v = tt
IsSorted-SameEnds m m' (x ∷ xs) s v = (
  AllFrom-weaken m' (end_at m x) (end_at m' x) xs (omega (arith, s.0))
      (AllFrom-SameEnds m m' (end_at m x) xs s.1 v.0),
  IsSorted-SameEnds m m' xs s.1 v.1,
)
