-- ===== src/PacketQueue/Order.antt =====
-- src/common/Threading/PacketQueue.h: packets leave the queue in the order in which they came.
use warhead_discord_client.Common.{
  ◌≡◌, refl, sym, ap, ◌∙◌, Bool, Option, none, some, List, [], ◌∷◌, ◌++◌, if◌then◌else◌,
  append_assoc, append-nil, Bool-cases, inl, inr,
}
use warhead_discord_client.PacketQueue.{
  PacketQueue, add_packet, read_container, take_first, get_next_packet, take_first_if,
  get_next_packet_if, cancel,
}

-- The steps of the threads that share a queue.
pub data Event (A : Type 0) : Type 0 where
  adds : A → Event A
  takes : Event A
  takes_if : (A → Bool) → Event A
  cancels : Event A

module _ {A : Type 0} where
  -- The packet of a step that took one, before those of the steps after it.
  abbrev pub also : Option A → List A → List A
  also none xs = xs
  also (some x) xs = x ∷ xs

  -- A call has taken its result only if it returns true.
  abbrev pub taken_of : Bool → Option A → Option A
  taken_of is_taken o = if is_taken then o else none

  -- The queue after some steps, and the packets that were taken.
  unfoldable pub run : List (Event A) → PacketQueue A → List A × PacketQueue A
  run [] q = ([], q)
  run (adds x ∷ es) q = run es (add_packet x q)
  run (takes ∷ es) q = let (o, q') = get_next_packet q in let (xs, r) = run es q' in (also o xs, r)
  run (takes_if check ∷ es) q =
      let (is_taken, o, q') = get_next_packet_if check q in
      let (xs, r) = run es q' in (also (taken_of is_taken o) xs, r)
  run (cancels ∷ es) q = run es (cancel q)

  abbrev pub added : List (Event A) → List A
  added [] = []
  added (adds x ∷ es) = x ∷ added es
  added (takes ∷ es) = added es
  added (takes_if check ∷ es) = added es
  added (cancels ∷ es) = added es

  take_first-queue :
      (xs : List A) (q : PacketQueue A)
      → q.queue ≡ xs
      → also (take_first xs q).0 (take_first xs q).1.queue ≡ xs
  take_first-queue [] q e = e
  take_first-queue (x ∷ xs) q e = refl

  take_first_if-queue :
      (check : A → Bool) (xs : List A) (q : PacketQueue A)
      → q.queue ≡ xs
      → let (is_taken, o, q') = take_first_if check xs q in also (taken_of is_taken o) q'.queue ≡ xs
  take_first_if-queue check [] q e = e
  take_first_if-queue check (x ∷ xs) q e = elim (Bool-cases (check x)) [
    | inl h ↦ rw h
    | inr h ↦ rw h e
  ]

  also-append : (o : Option A) (xs ys : List A) → also o xs ++ ys ≡ also o (xs ++ ys)
  also-append none xs ys = refl
  also-append (some x) xs ys = refl

  -- One step that takes from q, when what follows keeps the order.
  took :
      (o : Option A) (q q' : PacketQueue A) (xs rest more : List A)
      → also o q'.queue ≡ q.queue
      → xs ++ rest ≡ q'.queue ++ more
      → also o xs ++ rest ≡ q.queue ++ more
  took o q q' xs rest more e h =
      also-append o xs rest
      ∙ ap (also o) h
      ∙ sym (also-append o q'.queue more)
      ∙ ap (λ l. l ++ more) e

  -- Whatever the order in which threads add and take packets, conditionally or not, the packets that
  -- were taken, followed by those still in the queue, are those of before followed by those added.
  pub run-order :
      (es : List (Event A)) (q : PacketQueue A)
      → (run es q).0 ++ (run es q).1.queue ≡ q.queue ++ added es
  unfolding run add_packet get_next_packet get_next_packet_if cancel
  run-order [] q = sym (append-nil q.queue)
  run-order (adds x ∷ es) q =
      run-order es (add_packet x q) ∙ append_assoc q.queue (x ∷ []) (added es)
  run-order (takes ∷ es) q =
      took (get_next_packet q).0 q (get_next_packet q).1 _ _ (added es)
        (take_first-queue q.queue q refl) (run-order es (get_next_packet q).1)
  run-order (takes_if check ∷ es) q =
      let (is_taken, o, q') = get_next_packet_if check q in
      took (taken_of is_taken o) q q' _ _ (added es) (take_first_if-queue check q.queue q refl)
        (run-order es q')
  run-order (cancels ∷ es) q = run-order es (cancel q)

  take_first-back :
      (xs : List A) (q : PacketQueue A)
      → q.queue ≡ xs
      → read_container (also (take_first xs q).0 []) (take_first xs q).1 ≡ q
  unfolding read_container
  take_first-back [] q e = refl
  take_first-back (x ∷ xs) q e = ap (λ l. record q { queue = l }) (sym e)

  -- Putting back what was just taken restores the queue, also when it was empty.
  read_container-get_next_packet :
      (q : PacketQueue A) → read_container (also (get_next_packet q).0 []) (get_next_packet q).1 ≡ q
  unfolding get_next_packet
  read_container-get_next_packet q = take_first-back q.queue q refl
