-- ===== src/CheckPacketQueue/Leaks.antt =====
-- src/common/Threading/PacketQueue.h: the order of the packets in `CheckPacketQueue`, and the elements that are never
-- deleted.
use warhead_discord_client.Common.{
  ℕ, ◌+◌, ◌≡◌, refl, sym, ap, ◌∙◌, Option, none, some, List, [], ◌∷◌, ◌++◌, append_assoc,
  append-nil, length, length-append, arith,
}
use warhead_discord_client.CheckPacketQueue.{
  Element, CheckPacketQueue, empty_queue, add_packet, take_first, get_next_packet, cancel, packets,
  destroy,
}

-- The steps of the threads that share a queue.
pub data Event (Packet Check : Type 0) : Type 0 where
  adds : Packet → Check → Event Packet Check
  takes : Event Packet Check
  cancels : Event Packet Check

module _ {Packet Check : Type 0} where
  abbrev pub also :
      Option (Element Packet Check) → List (Element Packet Check) → List (Element Packet Check)
  also none xs = xs
  also (some x) xs = x ∷ xs

  -- The queue after some steps, and what was taken.
  unfoldable pub run :
      List (Event Packet Check)
      → CheckPacketQueue Packet Check
      → List (Element Packet Check) × CheckPacketQueue Packet Check
  unfolding add_packet get_next_packet cancel
  run [] q = ([], q)
  run (adds packet node_id ∷ es) q = run es (add_packet packet node_id q)
  run (takes ∷ es) q = let (o, q') = get_next_packet q in let (xs, r) = run es q' in (also o xs, r)
  run (cancels ∷ es) q = run es (cancel q)

  abbrev pub added : List (Event Packet Check) → List (Element Packet Check)
  added [] = []
  added (adds packet node_id ∷ es) = record { packet = packet; node_id = node_id } ∷ added es
  added (takes ∷ es) = added es
  added (cancels ∷ es) = added es

  -- The elements that exist are those of the queue and some more.
  abbrev pub Holds : ℕ → CheckPacketQueue Packet Check → Type 0
  Holds more q = q.allocated ≡ length q.queue + more

  take_first-queue :
      (xs : List (Element Packet Check)) (q : CheckPacketQueue Packet Check)
      → q.queue ≡ xs
      → (also (take_first xs q).0 (take_first xs q).1.queue ≡ xs)
        × ((take_first xs q).1.allocated ≡ q.allocated)
  take_first-queue [] q e = (e, refl)
  take_first-queue (x ∷ xs) q e = (refl, refl)

  also-append :
      (o : Option (Element Packet Check)) (xs ys : List (Element Packet Check))
      → (also o xs ++ ys ≡ also o (xs ++ ys))
        × (length (also o xs) ≡ length (also o []) + length xs)
  also-append none xs ys = (refl, omega arith)
  also-append (some x) xs ys = (refl, omega arith)

  run-Holds :
      (es : List (Event Packet Check)) (q : CheckPacketQueue Packet Check) (more : ℕ)
      → Holds more q
      → ((run es q).0 ++ (run es q).1.queue ≡ q.queue ++ added es)
        × Holds (more + length (run es q).0) (run es q).1
  unfolding run add_packet get_next_packet cancel
  run-Holds [] q more h = (sym (append-nil q.queue), omega arith)
  run-Holds (adds packet node_id ∷ es) q more h =
      let element : Element Packet Check = record { packet = packet; node_id = node_id } in
      let (order, holds) =
        run-Holds es (add_packet packet node_id q) more
          (omega (arith, length-append q.queue (element ∷ []))) in
      (order ∙ append_assoc q.queue (element ∷ []) (added es), holds)
  run-Holds (takes ∷ es) q more h =
      let (o, q') = get_next_packet q in
      let (back, same) = take_first-queue q.queue q refl in
      let k = also-append o q'.queue [] in
      let (order, holds) =
        run-Holds es q' (more + length (also o [])) (omega (arith, k.1, ap length back)) in
      let (xs, r) = run es q' in
      let m = also-append o xs r.queue in
      (
        m.0
            ∙ ap (also o) order
            ∙ sym (also-append o q'.queue (added es)).0
            ∙ ap (λ l. l ++ added es) back,
        omega (arith, m.1),
      )
  run-Holds (cancels ∷ es) q more h = run-Holds es (cancel q) more h

  -- Whatever the steps on a new queue: what was taken, followed by what is still there, is what was added, in
  -- its order. The destructor deletes the packets that are still there and their elements, and as many
  -- elements are left over as packets were taken.
  pub run-destroy :
      (es : List (Event Packet Check))
      → ((run es empty_queue).0 ++ (run es empty_queue).1.queue ≡ added es)
        × (destroy (run es empty_queue).1
            ≡ (packets (run es empty_queue).1.queue, length (run es empty_queue).0))
  unfolding destroy
  run-destroy es =
      let (order, holds) = run-Holds es empty_queue 0 refl in
      (
        order,
        ap (λ n. (packets (run es empty_queue).1.queue, n)) {y = length (run es empty_queue).0}
            (omega (arith, holds)),
      )
