-- ===== src/CheckPacketQueue.antt =====
-- src/common/Threading/PacketQueue.h: `CheckPacketQueue`, the queue of packets that each carry the identifier of a
-- node. An element is allocated for each packet that is added; the queue counts those that exist. Every
-- operation holds the lock, so the operations of several threads are a sequence of steps.
pub mod Leaks
mod Runs
use warhead_discord_client.Common.{
  ℕ, ◌+◌, ◌-◌, Bool, true, false, Option, none, some, List, [], ◌∷◌, ◌++◌, length,
}

pub record Element (Packet Check : Type 0) : Type 0 where
  pub packet : Packet
  pub node_id : Check

pub record CheckPacketQueue (Packet Check : Type 0) : Type 0 where
  pub queue : List (Element Packet Check)
  pub canceled : Bool
  pub allocated : ℕ

abbrev pub empty_queue : {Packet Check : Type 0} → CheckPacketQueue Packet Check
empty_queue = record { queue = []; canceled = false; allocated = 0 }

module _ {Packet Check : Type 0} where
  unfoldable pub add_packet :
      Packet → Check → CheckPacketQueue Packet Check → CheckPacketQueue Packet Check
  add_packet packet node_id q = record q {
    queue = q.queue ++ (record { packet = packet; node_id = node_id } ∷ []);
    allocated = q.allocated + 1;
  }

  -- Puts elements back to the front.
  unfoldable pub read_container :
      List (Element Packet Check) → CheckPacketQueue Packet Check → CheckPacketQueue Packet Check
  read_container container q = record q { queue = container ++ q.queue }

  abbrev pub take_first :
      List (Element Packet Check)
      → CheckPacketQueue Packet Check
      → Option (Element Packet Check) × CheckPacketQueue Packet Check
  take_first [] q = (none, q)
  take_first (result ∷ rest) q = (some result, record q { queue = rest })

  -- The packet and the identifier that are handed out; the element itself is not deleted.
  unfoldable pub get_next_packet :
      CheckPacketQueue Packet Check → Option (Element Packet Check) × CheckPacketQueue Packet Check
  get_next_packet q = take_first q.queue q

  unfoldable pub cancel : CheckPacketQueue Packet Check → CheckPacketQueue Packet Check
  cancel q = record q { canceled = true }

  abbrev pub is_nil : List (Element Packet Check) → Bool
  is_nil [] = true
  is_nil (x ∷ xs) = false

  unfoldable pub is_empty : CheckPacketQueue Packet Check → Bool
  is_empty q = is_nil q.queue

  abbrev pub packets : List (Element Packet Check) → List Packet
  packets [] = []
  packets (x ∷ xs) = x.packet ∷ packets xs

  -- The destructor: the packets that it deletes, and the number of elements that are left over.
  unfoldable pub destroy : CheckPacketQueue Packet Check → List Packet × ℕ
  destroy q = (packets q.queue, q.allocated - length q.queue)
