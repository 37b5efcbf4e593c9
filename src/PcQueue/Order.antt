-- ===== src/PcQueue/Order.antt =====
-- src/common/Threading/PCQueue.h: values leave in the order in which they came, and none after Cancel.
use warhead_discord_client.Common.{
  ◌≡◌, refl, sym, ap, ◌∙◌, true, false, Option, none, some, List, [], ◌∷◌, ◌++◌, append_assoc,
  if◌then◌else◌, arith,
}
use warhead_discord_client.PcQueue.{
  ProducerConsumerQueue, Waited, waits, returns, push, pop_front, pop, wait_and_pop, cancel, empty,
}

-- The steps of the threads that share a queue.
pub data Event (A : Type 0) : Type 0 where
  pushes : A → Event A
  pops : Event A
  waiter_runs : Event A
  cancels : Event A

module _ {A : Type 0} where
  abbrev pub value_of : Waited A → Option A
  value_of waits = none
  value_of (returns v) = v

  -- What one step hands to a consumer, and the queue that it leaves.
  unfoldable pub step : Event A → ProducerConsumerQueue A → Option A × ProducerConsumerQueue A
  step (pushes x) q = (none, push x q)
  step pops q = pop q
  step waiter_runs q = let (w, q') = wait_and_pop q in (value_of w, q')
  step cancels q = (none, cancel q)

  abbrev pub also : Option A → List A → List A
  also none xs = xs
  also (some x) xs = x ∷ xs

  -- The values that consumers got, and the queue at the end.
  unfoldable pub run : List (Event A) → ProducerConsumerQueue A → List A × ProducerConsumerQueue A
  unfolding step
  run [] q = ([], q)
  run (e ∷ es) q = let (o, q') = step e q in let (xs, r) = run es q' in (also o xs, r)

  -- The values that are pushed up to the first cancellation.
  abbrev pub pushed : List (Event A) → List A
  pushed [] = []
  pushed (pushes x ∷ es) = x ∷ pushed es
  pushed (pops ∷ es) = pushed es
  pushed (waiter_runs ∷ es) = pushed es
  pushed (cancels ∷ es) = []

  -- The list xs begins with ys.
  abbrev pub Begins : List A → List A → Type 0
  Begins xs ys = (zs : List A) × (xs ≡ ys ++ zs)

  pop_front-shut :
      (xs : List A) (q : ProducerConsumerQueue A) → q.shutdown ≡ true → pop_front xs q ≡ (none, q)
  pop_front-shut [] q e = refl
  pop_front-shut (x ∷ xs) q e =
      ap (λ b. if b then (none, q) else (some x, record q { queue = xs })) e

  waiter_pops :
      (xs : List A) (q : ProducerConsumerQueue A)
      → q.queue ≡ xs
      → step waiter_runs q ≡ pop_front xs q
  unfolding step wait_and_pop pop empty
  waiter_pops [] q e = ground arith
  waiter_pops (x ∷ xs) q e = ground arith

  -- What a step of a closed queue gives.
  step-shut :
      (e : Event A) (q : ProducerConsumerQueue A)
      → q.shutdown ≡ true
      → ((step e q).0 ≡ none) × ((step e q).1.shutdown ≡ true)
  unfolding step push cancel pop wait_and_pop
  step-shut (pushes x) q h = (refl, h)
  step-shut pops q h = rw (pop_front-shut q.queue q h) (refl, h)
  step-shut waiter_runs q h =
      let e = waiter_pops q.queue q refl ∙ pop_front-shut q.queue q h in
      (ap (λ r. r.0) e, ap (λ r. r.1.shutdown) e ∙ h)
  step-shut cancels q h = (refl, refl)

  run-shut :
      (es : List (Event A)) (q : ProducerConsumerQueue A) → q.shutdown ≡ true → (run es q).0 ≡ []
  unfolding run
  run-shut [] q h = refl
  run-shut (e ∷ es) q h =
      let s = step-shut e q h in
      ap (λ o. also o (run es (step e q).1).0) s.0 ∙ run-shut es (step e q).1 s.1

  -- A step that hands out the first value, or none, of an open queue.
  record Popped (q : ProducerConsumerQueue A) (r : Option A × ProducerConsumerQueue A)
      : Type 0 where
    order : also r.0 r.1.queue ≡ q.queue
    still_open : r.1.shutdown ≡ false

  pop_front-open :
      (x : A) (xs : List A) (q : ProducerConsumerQueue A)
      → q.shutdown ≡ false
      → pop_front (x ∷ xs) q ≡ (some x, record q { queue = xs })
  pop_front-open x xs q h = ap (λ b. if b then (none, q) else (some x, record q { queue = xs })) h

  pop_front-Popped :
      (xs : List A) (q : ProducerConsumerQueue A)
      → q.queue ≡ xs
      → q.shutdown ≡ false
      → Popped q (pop_front xs q)
  pop_front-Popped [] q e h = record { order = refl; still_open = h }
  pop_front-Popped (x ∷ xs) q e h =
      rw (pop_front-open x xs q h) (record { order = sym e; still_open = h })

  also-Begins :
      (o : Option A) (l more ys : List A)
      → Begins (l ++ more) ys
      → Begins (also o l ++ more) (also o ys)
  also-Begins none l more ys b = b
  also-Begins (some x) l more ys (zs, e) = (zs, ap (λ t. x ∷ t) e)

  popped-Begins :
      (o : Option A) (q q' : ProducerConsumerQueue A) (more ys : List A)
      → also o q'.queue ≡ q.queue
      → Begins (q'.queue ++ more) ys
      → Begins (q.queue ++ more) (also o ys)
  popped-Begins o q q' more ys e b = rw (sym e) (also-Begins o q'.queue more ys b)

  pops-Popped : (q : ProducerConsumerQueue A) → q.shutdown ≡ false → Popped q (step pops q)
  unfolding step pop
  pops-Popped q h = pop_front-Popped q.queue q refl h

  waiter-Popped : (q : ProducerConsumerQueue A) → q.shutdown ≡ false → Popped q (step waiter_runs q)
  waiter-Popped q h = rw (waiter_pops q.queue q refl) (pop_front-Popped q.queue q refl h)

  pushed_next :
      (x : A) (es : List (Event A)) (q : ProducerConsumerQueue A)
      → q.queue ++ (x ∷ pushed es) ≡ (step (pushes x) q).1.queue ++ pushed es
  unfolding step push
  pushed_next x es q = sym (append_assoc q.queue (x ∷ []) (pushed es))

  after_cancel :
      (es : List (Event A)) (q : ProducerConsumerQueue A)
      → also (step cancels q).0 (run es (step cancels q).1).0 ≡ []
  unfolding step cancel
  after_cancel es q = run-shut es (record { queue = []; shutdown = true }) refl

  -- Whatever the order in which producers push, consumers pop or wait, and the queue is cancelled:
  -- the values that consumers get are, in order, the first of those that were in the open queue and
  -- of those pushed before the first cancellation. None comes after it.
  pub run-Begins :
      (es : List (Event A)) (q : ProducerConsumerQueue A)
      → q.shutdown ≡ false
      → Begins (q.queue ++ pushed es) (run es q).0
  unfolding run
  run-Begins [] q h = (q.queue ++ [], refl)
  run-Begins (pushes x ∷ es) q h =
      let (zs, e) = run-Begins es (step (pushes x) q).1 (unfold step push in h) in
      (zs, pushed_next x es q ∙ e)
  run-Begins (pops ∷ es) q h =
      let p = pops-Popped q h in
      popped-Begins (step pops q).0 q (step pops q).1 (pushed es) _ p.order
        (run-Begins es (step pops q).1 p.still_open)
  run-Begins (waiter_runs ∷ es) q h =
      let p = waiter-Popped q h in
      popped-Begins (step waiter_runs q).0 q (step waiter_runs q).1 (pushed es) _ p.order
        (run-Begins es (step waiter_runs q).1 p.still_open)
  run-Begins (cancels ∷ es) q h =
      (q.queue ++ [], ap (λ l. l ++ (q.queue ++ [])) (sym (after_cancel es q)))
