-- ===== src/PcQueue.antt =====
-- src/common/Threading/PCQueue.h: the queue between producers and consumers. Every operation holds
-- the lock but while `WaitAndPop` waits, so the operations of several threads are a sequence of steps.
pub mod Order
mod Runs
use warhead_discord_client.Common.{
  ℕ, Bool, true, false, not, ◌&&◌, ◌||◌, Option, none, some, List, [], ◌∷◌, ◌++◌, length,
  if◌then◌else◌,
}

pub record ProducerConsumerQueue (A : Type 0) : Type 0 where
  pub queue : List A
  pub shutdown : Bool

-- The constructor.
abbrev pub created : {A : Type 0} → ProducerConsumerQueue A
created = record { queue = []; shutdown = false }

-- A consumer goes on waiting, or returns with or without a value.
pub data Waited (A : Type 0) : Type 0 where
  waits : Waited A
  returns : Option A → Waited A

module _ {A : Type 0} where
  unfoldable pub push : A → ProducerConsumerQueue A → ProducerConsumerQueue A
  push value q = record q { queue = q.queue ++ (value ∷ []) }

  abbrev pub is_nil : List A → Bool
  is_nil [] = true
  is_nil (x ∷ xs) = false

  unfoldable pub empty : ProducerConsumerQueue A → Bool
  empty q = is_nil q.queue

  unfoldable pub size : ProducerConsumerQueue A → ℕ
  size q = length q.queue

  abbrev pub pop_front : List A → ProducerConsumerQueue A → Option A × ProducerConsumerQueue A
  pop_front [] q = (none, q)
  pop_front (value ∷ rest) q =
      if q.shutdown then (none, q) else (some value, record q { queue = rest })

  unfoldable pub pop : ProducerConsumerQueue A → Option A × ProducerConsumerQueue A
  pop q = pop_front q.queue q

  -- `WaitAndPop` each time that it holds the lock.
  unfoldable pub wait_and_pop : ProducerConsumerQueue A → Waited A × ProducerConsumerQueue A
  unfolding empty pop
  wait_and_pop q =
      if empty q && not q.shutdown
      then (waits, q)
      else let (value, q') = pop q in (returns value, q')

  -- The queue after `Cancel`, which deletes all that is in it.
  unfoldable pub cancel : ProducerConsumerQueue A → ProducerConsumerQueue A
  cancel q = record { queue = []; shutdown = true }
