-- ===== src/MpscQueue.antt =====
-- src/common/Threading/MPSCQueue.h: `MPSCQueueNonIntrusive`, a queue of several producers and one
-- consumer without a lock. `Enqueue` is two steps, the exchange of the head and the store of the link,
-- between which other threads may run; `Dequeue` is one step, since only the consumer changes the tail
-- and a link, once stored, stays. A node is named by a number; `new` gives one that is not in use, and
-- no name is given twice.
pub mod Linking
pub mod Order
mod Runs
use warhead_discord_client.Common.{
  ℕ, zero, suc, ◌+◌, Bool, true, false, ◌||◌, Option, none, some, List, [], ◌∷◌, ◌==◌,
  if◌then◌else◌, get_elem?,
}

-- A producer between the exchange and the store: the head before it, and its own node.
pub record Pending : Type 0 where
  pub prev_head : ℕ
  pub node : ℕ

-- `next` and `data` are the members of the nodes; `fresh` is the next name; `freed` are the nodes that
-- were deleted.
pub record MpscQueue : Type 0 where
  pub next : ℕ → Option ℕ
  pub data_at : ℕ → ℕ
  pub head : ℕ
  pub tail : ℕ
  pub fresh : ℕ
  pub freed : List ℕ
  pub pending : List Pending

-- The constructor: one node without data.
unfoldable pub constructed : MpscQueue
constructed = record {
  next = λ a. none;
  data_at = λ a. 0;
  head = 0;
  tail = 0;
  fresh = 1;
  freed = [];
  pending = [];
}

abbrev pub put : {A : Type 0} → (ℕ → A) → ℕ → A → ℕ → A
put f a v b = if b == a then v else f b

abbrev pub is_in : ℕ → List ℕ → Bool
is_in a [] = false
is_in a (x ∷ xs) = (x == a) || is_in a xs

abbrev pub remove_at : ℕ → List Pending → List Pending
remove_at i [] = []
remove_at zero (p ∷ ps) = ps
remove_at (suc i) (p ∷ ps) = p ∷ remove_at i ps

-- `new Node(input)` and the exchange of the head.
unfoldable pub exchange : ℕ → MpscQueue → MpscQueue
exchange input q = record q {
  next = put q.next q.fresh none;
  data_at = put q.data_at q.fresh input;
  head = q.fresh;
  fresh = suc q.fresh;
  pending = record { prev_head = q.head; node = q.fresh } ∷ q.pending;
}

-- The store of the link by one of the producers; `none` is a store into a deleted node.
abbrev pub store_link : Pending → List Pending → MpscQueue → Option MpscQueue
store_link p rest q =
    if is_in p.prev_head q.freed
    then none
    else some (record q { next = put q.next p.prev_head (some p.node); pending = rest })

-- The i-th of the producers that are between their steps, if there are so many.
abbrev pub on_pending : Option Pending → ℕ → MpscQueue → Option MpscQueue
on_pending none i q = some q
on_pending (some p) i q = store_link p (remove_at i q.pending) q

unfoldable pub link : ℕ → MpscQueue → Option MpscQueue
link i q = on_pending (get_elem? q.pending i) i q

-- `Dequeue`: the result, if there is one; `none` in front is an access to a deleted node.
abbrev pub on_next : Option ℕ → MpscQueue → Option (MpscQueue × Option ℕ)
on_next none q = some (q, none)
on_next (some next) q =
    if is_in next q.freed
    then none
    else some (record q { tail = next; freed = q.tail ∷ q.freed }, some (q.data_at next))

unfoldable pub dequeue : MpscQueue → Option (MpscQueue × Option ℕ)
dequeue q = if is_in q.tail q.freed then none else on_next (q.next q.tail) q

pub data Step : Type 0 where
  exchanges : ℕ → Step
  links : ℕ → Step
  dequeues : Step

abbrev pub no_output : Option MpscQueue → Option (MpscQueue × Option ℕ)
no_output none = none
no_output (some q) = some (q, none)

unfoldable pub step : Step → MpscQueue → Option (MpscQueue × Option ℕ)
unfolding exchange link dequeue
step (exchanges input) q = some (exchange input q, none)
step (links i) q = no_output (link i q)
step dequeues q = dequeue q

abbrev pub output : Option ℕ → List ℕ → List ℕ
output none out = out
output (some v) out = v ∷ out

abbrev pub with_output : Option ℕ → Option (MpscQueue × List ℕ) → Option (MpscQueue × List ℕ)
with_output v none = none
with_output v (some (q, out)) = some (q, output v out)

abbrev pub then_run :
    Option (MpscQueue × Option ℕ)
    → (MpscQueue → Option (MpscQueue × List ℕ))
    → Option (MpscQueue × List ℕ)
then_run none k = none
then_run (some (q, v)) k = with_output v (k q)

-- Any interleaving of the steps, and what the consumer got.
unfoldable pub run : List Step → MpscQueue → Option (MpscQueue × List ℕ)
unfolding step
run [] q = some (q, [])
run (s ∷ steps) q = then_run (step s q) (run steps)
