-- ===== src/AsyncCallbackProcessor/Rounds.antt =====
-- src/common/Utilities/AsyncCallbackProcessor.h: no callback is lost or invoked again when it is done, also when
-- callbacks add others.
use warhead_discord_client.Common.{
  ℕ, ◌+◌, ◌≡◌, refl, ap, subst, Bool, true, false, List, [], ◌∷◌, ◌++◌, if◌then◌else◌, arith,
}
use warhead_discord_client.AsyncCallbackProcessor.{
  Invoked, AsyncCallbackProcessor, add_callback, add_callbacks, invoke, kept_unless, remove_ready,
  process, process_ready_callbacks,
}

module _ {T : Type 0} where
  -- How many callbacks of a list pass a test.
  unfoldable pub count : (T → Bool) → List T → ℕ
  count is_counted [] = 0
  count is_counted (t ∷ ts) = (if is_counted t then 1 else 0) + count is_counted ts

  count-append :
      (is_counted : T → Bool) (ts us : List T)
      → count is_counted (ts ++ us) ≡ count is_counted ts + count is_counted us
  unfolding count
  count-append is_counted [] us = omega arith
  count-append is_counted (t ∷ ts) us = omega (arith, count-append is_counted ts us)

pub data Event (T : Type 0) : Type 0 where
  adds : T → Event T
  processes : Event T

module _ {T S : Type 0} (invoke_if_ready : T → S → Invoked T S) where
  -- If each of the callbacks is asked once, in order: those that are done, those that they add, and what is
  -- shared afterwards.
  unfoldable pub done_of : List T → S → List T
  done_of [] s = []
  done_of (t ∷ ts) s =
      let i = invoke_if_ready t s in
      let others = done_of ts i.shared in if i.is_done then t ∷ others else others

  unfoldable pub added_by : List T → S → List T
  added_by [] s = []
  added_by (t ∷ ts) s = let i = invoke_if_ready t s in i.added ++ added_by ts i.shared

  abbrev pub step : Event T → AsyncCallbackProcessor T S → AsyncCallbackProcessor T S
  unfolding add_callback process_ready_callbacks
  step (adds t) p = add_callback t p
  step processes p = process_ready_callbacks invoke_if_ready p

  unfoldable pub run : List (Event T) → AsyncCallbackProcessor T S → AsyncCallbackProcessor T S
  unfolding step
  run [] p = p
  run (e ∷ es) p = run es (step e p)

  abbrev pub done_in : Event T → AsyncCallbackProcessor T S → List T
  unfolding done_of
  done_in (adds t) p = []
  done_in processes p = done_of p.callbacks p.shared

  abbrev pub added_in : Event T → AsyncCallbackProcessor T S → List T
  unfolding added_by
  added_in (adds t) p = t ∷ []
  added_in processes p = added_by p.callbacks p.shared

  -- All that are done, and all that are added, in a sequence of events.
  unfoldable pub done : List (Event T) → AsyncCallbackProcessor T S → List T
  unfolding done_in step
  done [] p = []
  done (e ∷ es) p = done_in e p ++ done es (step e p)

  unfoldable pub added : List (Event T) → AsyncCallbackProcessor T S → List T
  unfolding added_in step
  added [] p = []
  added (e ∷ es) p = added_in e p ++ added es (step e p)

  module _ (is_counted : T → Bool) where
    count_add_callbacks :
        (ts : List T) (p : AsyncCallbackProcessor T S)
        → count is_counted (add_callbacks ts p).callbacks
          ≡ count is_counted p.callbacks + count is_counted ts
    unfolding count add_callback
    count_add_callbacks [] p = omega arith
    count_add_callbacks (t ∷ ts) p = omega (
      arith,
      count_add_callbacks ts (add_callback t p),
      count-append is_counted p.callbacks (t ∷ []),
    )

    shared_add_callbacks :
        (ts : List T) (p : AsyncCallbackProcessor T S) → (add_callbacks ts p).shared ≡ p.shared
    unfolding add_callback
    shared_add_callbacks [] p = refl
    shared_add_callbacks (t ∷ ts) p = shared_add_callbacks ts (add_callback t p)

    remove_ready-Accounted :
        (ts : List T) (p : AsyncCallbackProcessor T S)
        → let (left, q) = remove_ready invoke_if_ready ts p in
          count is_counted (done_of ts p.shared)
            + (count is_counted q.callbacks + count is_counted left)
          ≡ count is_counted p.callbacks
            + (count is_counted ts + count is_counted (added_by ts p.shared))
    unfolding count remove_ready done_of added_by
    remove_ready-Accounted [] p = omega arith
    remove_ready-Accounted (t ∷ ts) p =
        let i = invoke_if_ready t p.shared in
        let r = remove_ready invoke_if_ready ts (invoke invoke_if_ready t p) in
        let same : (invoke invoke_if_ready t p).shared ≡ i.shared =
          shared_add_callbacks i.added (record p { shared = i.shared }) in
        let rest : count is_counted (done_of ts i.shared)
              + (count is_counted r.1.callbacks + count is_counted r.0)
            ≡ count is_counted (invoke invoke_if_ready t p).callbacks
              + (count is_counted ts + count is_counted (added_by ts i.shared)) =
          subst
            (λ s.
              count is_counted (done_of ts s)
                + (count is_counted r.1.callbacks + count is_counted r.0)
              ≡ count is_counted (invoke invoke_if_ready t p).callbacks
                + (count is_counted ts + count is_counted (added_by ts s)))
            same (remove_ready-Accounted ts (invoke invoke_if_ready t p)) in
        let grown = count_add_callbacks i.added (record p { shared = i.shared }) in
        let joined = count-append is_counted i.added (added_by ts i.shared) in
        omega (arith, rest, grown, joined, counted i.is_done r (done_of ts i.shared))
      where
        counted :
            (b : Bool) (r : List T × AsyncCallbackProcessor T S) (others : List T)
            → let (left, q) = kept_unless invoke_if_ready b t r in
              count is_counted (if b then t ∷ others else others)
                + (count is_counted q.callbacks + count is_counted left)
              ≡ (if is_counted t then 1 else 0)
                + (count is_counted others
                    + (count is_counted r.1.callbacks + count is_counted r.0))
        counted true r others = omega arith
        counted false r others = omega arith

    process-Accounted :
        (ts : List T) (p : AsyncCallbackProcessor T S)
        → p.callbacks ≡ ts
        → count is_counted (done_of ts p.shared)
            + count is_counted (process invoke_if_ready ts p).callbacks
          ≡ count is_counted ts + count is_counted (added_by ts p.shared)
    unfolding process count done_of added_by
    process-Accounted [] p e = omega (arith, ap (count is_counted) e)
    process-Accounted (t ∷ ts) p e =
        let start = record p { callbacks = [] } in
        let r = remove_ready invoke_if_ready (t ∷ ts) start in
        omega
          (arith, remove_ready-Accounted (t ∷ ts) start, count-append is_counted r.1.callbacks r.0)

    step-Accounted :
        (e : Event T) (p : AsyncCallbackProcessor T S)
        → count is_counted (done_in e p) + count is_counted (step e p).callbacks
          ≡ count is_counted p.callbacks + count is_counted (added_in e p)
    unfolding count add_callback process_ready_callbacks done_in added_in step
    step-Accounted (adds t) p = omega (arith, count-append is_counted p.callbacks (t ∷ []))
    step-Accounted processes p = process-Accounted p.callbacks p refl

  -- In any sequence of calls of `AddCallback` and `ProcessReadyCallbacks` no callback is lost and none is
  -- left behind when it is done: those that are done, when each round asks each waiting callback once and in
  -- order, and those that wait at the end are together those that waited at first and those
  -- that were added, by a call or by another callback, each as often; for every test of callbacks the numbers are
  -- equal.
  pub run-Accounted :
      (es : List (Event T)) (p : AsyncCallbackProcessor T S) (is_counted : T → Bool)
      → count is_counted (done es p) + count is_counted (run es p).callbacks
        ≡ count is_counted p.callbacks + count is_counted (added es p)
  unfolding run done added count
  run-Accounted [] p is_counted = omega arith
  run-Accounted (e ∷ es) p is_counted = omega (
    arith,
    step-Accounted is_counted e p,
    run-Accounted es (step e p) is_counted,
    count-append is_counted (done_in e p) (done es (step e p)),
    count-append is_counted (added_in e p) (added es (step e p)),
  )
