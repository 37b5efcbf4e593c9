-- ===== src/PacketQueue.antt =====
-- src/common/Threading/PacketQueue.h: the queue of packets (the default one, a deque behind a lock).
-- Every operation holds the lock, so the operations of several threads are a sequence of steps.
pub mod Order
mod Runs
use warhead_discord_client.Common.{
  Bool, true, false, Option, none, some, List, [], ◌∷◌, ◌++◌, if◌then◌else◌,
}

pub record PacketQueue (A : Type 0) : Type 0 where
  pub queue : List A
  pub canceled : Bool

abbrev pub empty_queue : {A : Type 0} → PacketQueue A
empty_queue = record { queue = []; canceled = false }

module _ {A : Type 0} where
  unfoldable pub add_packet : A → PacketQueue A → PacketQueue A
  add_packet packet q = record q { queue = q.queue ++ (packet ∷ []) }

  -- Puts items back to the front.
  unfoldable pub read_container : List A → PacketQueue A → PacketQueue A
  read_container container q = record q { queue = container ++ q.queue }

  abbrev pub take_first : List A → PacketQueue A → Option A × PacketQueue A
  take_first [] q = (none, q)
  take_first (packet ∷ rest) q = (some packet, record q { queue = rest })

  unfoldable pub get_next_packet : PacketQueue A → Option A × PacketQueue A
  get_next_packet q = take_first q.queue q

  abbrev pub take_first_if : (A → Bool) → List A → PacketQueue A → Bool × Option A × PacketQueue A
  take_first_if check [] q = (false, none, q)
  take_first_if check (packet ∷ rest) q =
      if check packet
      then (true, some packet, record q { queue = rest })
      else (false, some packet, q)

  -- The overload with a check on the first packet: what it returns, and what it assigns to the result. A first
  -- packet is assigned also when the check fails, and stays in the queue.
  unfoldable pub get_next_packet_if : (A → Bool) → PacketQueue A → Bool × Option A × PacketQueue A
  get_next_packet_if check q = take_first_if check q.queue q

  unfoldable pub cancel : PacketQueue A → PacketQueue A
  cancel q = record q { canceled = true }

  abbrev pub is_nil : List A → Bool
  is_nil [] = true
  is_nil (x ∷ xs) = false

  unfoldable pub is_empty : PacketQueue A → Bool
  is_empty q = is_nil q.queue
