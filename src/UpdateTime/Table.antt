-- ===== src/UpdateTime/Table.antt =====
-- src/client/Time/UpdateTime.cpp: the running total and the maximum agree with the table.
use warhead_discord_client.Common.{
  ℕ, zero, suc, ◌+◌, ◌-◌, ◌%◌, ◌^◌, ◌≤◌, ◌<◌, ◌≡◌, refl, sym, ap, ◌∙◌, List, [], ◌∷◌, arith, length,
  length-replicate, replicate, get_or, set, All,
}
use warhead_discord_client.UpdateTime.{
  UpdateTime, of_size, avg_diff_count, initial, put_diff, raise_max, next_index, new_average,
  update_with_diff,
}

abbrev pub sum : List ℕ → ℕ
sum [] = 0
sum (x ∷ xs) = x + sum xs

-- The table has n entries, the index stands on one of them, the total is the sum of the entries in
-- 32 bits, and no entry is above the maximum or outside 32 bits.
pub record TableIsValid (n : ℕ) (u : UpdateTime) : Type 0 where
  pub size : length u.update_time_data_table ≡ n
  pub index : u.update_time_table_index < n
  pub total : u.total_update_time ≡ sum u.update_time_data_table % 2 ^ 32
  pub bounded : All (λ x. x ≤ u.max_update_time) u.update_time_data_table
  pub max_bound : u.max_update_time < 2 ^ 32

length-set : (xs : List ℕ) (i v : ℕ) → length (set xs i v) ≡ length xs
length-set [] i v = refl
length-set (x ∷ xs) zero v = refl
length-set (x ∷ xs) (suc i) v = ap suc (length-set xs i v)

sum-set : (xs : List ℕ) (i v : ℕ) → i < length xs → sum (set xs i v) + get_or xs i 0 ≡ sum xs + v
sum-set [] i v h = ground arith
sum-set (x ∷ xs) zero v h = omega arith
sum-set (x ∷ xs) (suc i) v h = omega (arith, sum-set xs i v (omega arith))

sum-replicate : (n : ℕ) → sum (replicate n 0) ≡ 0
sum-replicate zero = refl
sum-replicate (suc n) = omega (arith, sum-replicate n)

All-replicate : (n m : ℕ) → All (λ x. x ≤ m) (replicate n 0)
All-replicate zero m = tt
All-replicate (suc n) m = (omega arith, All-replicate n m)

All-weaken : (m m' : ℕ) (xs : List ℕ) → All (λ x. x ≤ m) xs → m ≤ m' → All (λ x. x ≤ m') xs
All-weaken m m' [] a h = tt
All-weaken m m' (x ∷ xs) a h = (omega (arith, a.0), All-weaken m m' xs a.1 h)

All-set :
    (m m' v : ℕ) (xs : List ℕ) (i : ℕ)
    → All (λ x. x ≤ m) xs
    → m ≤ m'
    → v ≤ m'
    → All (λ x. x ≤ m') (set xs i v)
All-set m m' v [] i a h k = tt
All-set m m' v (x ∷ xs) zero a h k = (k, All-weaken m m' xs a.1 h)
All-set m m' v (x ∷ xs) (suc i) a h k = (omega (arith, a.0), All-set m m' v xs i a.1 h k)

get_or-le : (m : ℕ) (xs : List ℕ) (i : ℕ) → All (λ x. x ≤ m) xs → get_or xs i 0 ≤ m
get_or-le m [] i a = omega arith
get_or-le m (x ∷ xs) zero a = a.0
get_or-le m (x ∷ xs) (suc i) a = get_or-le m xs i a.1

-- What the four statements of `UpdateWithDiff` leave of the fields that the invariant speaks of.
abbrev before_index : ℕ → UpdateTime → UpdateTime
before_index diff u = raise_max diff (put_diff diff u)

next_index-fields :
    (u : UpdateTime)
    → ((next_index u).update_time_data_table ≡ u.update_time_data_table)
      × ((next_index u).total_update_time ≡ u.total_update_time)
      × ((next_index u).max_update_time ≡ u.max_update_time)
next_index-fields u = ground arith

next_index-index :
    (u : UpdateTime)
    → 0 < length u.update_time_data_table
    → (next_index u).update_time_table_index < length u.update_time_data_table
next_index-index u h = ground arith

new_average-fields :
    (u : UpdateTime)
    → ((new_average u).update_time_data_table ≡ u.update_time_data_table)
      × ((new_average u).total_update_time ≡ u.total_update_time)
      × ((new_average u).max_update_time ≡ u.max_update_time)
      × ((new_average u).update_time_table_index ≡ u.update_time_table_index)
new_average-fields u = ground arith

-- The total after a write to the table, in 32 bits.
total_moves :
    (total old diff s s' : ℕ)
    → total ≡ s % 2 ^ 32
    → s' + old ≡ s + diff
    → old < 2 ^ 32
    → (total + 2 ^ 32 - old + diff) % 2 ^ 32 ≡ s' % 2 ^ 32
total_moves total old diff s s' t e h = omega arith

before_index-IsValid :
    (n diff : ℕ) (u : UpdateTime)
    → TableIsValid n u
    → diff < 2 ^ 32
    → TableIsValid n (before_index diff u)
before_index-IsValid n diff u v h =
    let old =
      get_or-le u.max_update_time u.update_time_data_table u.update_time_table_index v.bounded in
    record {
      size = length-set u.update_time_data_table u.update_time_table_index diff ∙ v.size;
      index = v.index;
      total =
          total_moves u.total_update_time _ diff (sum u.update_time_data_table) _ v.total
            (sum-set u.update_time_data_table u.update_time_table_index diff
              (omega (arith, v.index, v.size)))
            (omega (arith, old, v.max_bound));
      bounded =
          All-set u.max_update_time (raise_max diff u).max_update_time diff u.update_time_data_table
            u.update_time_table_index v.bounded (ground arith) (ground arith);
      max_bound = let b = v.max_bound in ground arith;
    }

-- One update with a difference below 2 ^ 32 keeps the total equal to the sum of the table in 32 bits,
-- the maximum at or above every entry, and the index inside the table.
pub update_with_diff-TableIsValid :
    (n diff : ℕ) (u : UpdateTime)
    → 0 < n
    → TableIsValid n u
    → diff < 2 ^ 32
    → TableIsValid n (update_with_diff diff u)
unfolding update_with_diff
update_with_diff-TableIsValid n diff u p v h =
    let b = before_index-IsValid n diff u v h in
    let x = next_index (before_index diff u) in
    let (t, s, m) = next_index-fields (before_index diff u) in
    let (t', s', m', i') = new_average-fields x in
    record {
      size = ap length (t' ∙ t) ∙ b.size;
      index =
          omega
            (arith, i', next_index-index (before_index diff u) (omega (arith, b.size, p)), b.size);
      total = s' ∙ s ∙ b.total ∙ ap (λ l. sum l % 2 ^ 32) (sym (t' ∙ t));
      bounded = rw (t' ∙ t, m' ∙ m) b.bounded;
      max_bound = omega (arith, m', m, b.max_bound);
    }

of_size-TableIsValid : (n : ℕ) → 0 < n → TableIsValid n (of_size n)
unfolding of_size
of_size-TableIsValid n p = record {
  size = length-replicate n 0;
  index = p;
  total = omega (arith, sum-replicate n);
  bounded = All-replicate n 0;
  max_bound = omega arith;
}

-- Updates one after the other.
unfoldable pub update_all : List ℕ → UpdateTime → UpdateTime
update_all [] u = u
update_all (d ∷ ds) u = update_all ds (update_with_diff d u)

update_all-TableIsValid :
    (n : ℕ) (ds : List ℕ) (u : UpdateTime)
    → 0 < n
    → TableIsValid n u
    → All (λ d. d < 2 ^ 32) ds
    → TableIsValid n (update_all ds u)
unfolding update_all
update_all-TableIsValid n [] u p v h = v
update_all-TableIsValid n (d ∷ ds) u p v h =
    update_all-TableIsValid n ds (update_with_diff d u) p
      (update_with_diff-TableIsValid n d u p v h.0) h.1

-- After any sequence of updates with differences below 2 ^ 32, the table has its 500 entries, the
-- total is their sum in 32 bits, none is above the maximum, and the index stands inside the table.
pub update_all-initial :
    (ds : List ℕ) → All (λ d. d < 2 ^ 32) ds → TableIsValid avg_diff_count (update_all ds initial)
unfolding initial
update_all-initial ds h =
    update_all-TableIsValid avg_diff_count ds (of_size avg_diff_count) (omega arith)
      (of_size-TableIsValid avg_diff_count (omega arith)) h
