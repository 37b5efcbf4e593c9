-- ===== src/MpscQueue/Runs.antt =====
-- Two producers whose steps overlap, and the theorems at that run.
use warhead_discord_client.Common.{
  ℕ, ◌≡◌, refl, sym, ap, ◌∙◌, subst, Option, none, some, List, [], ◌∷◌,
}
use warhead_discord_client.MpscQueue.{
  MpscQueue, put, constructed, exchanges, links, dequeues, Step, run, exchange, step, link, dequeue,
}
use warhead_discord_client.MpscQueue.Linking.{IsLinked}
use warhead_discord_client.MpscQueue.Order.{
  IsRun, run-IsRun, constructed-IsLinked, DequeuesFirst, dequeue-DequeuesFirst,
}

-- The second producer stores its link first, so that the consumer finds nothing until the first does.
abbrev overlapping : List Step
overlapping =
    exchanges 7 ∷ exchanges 8 ∷ links 0 ∷ dequeues ∷ links 0 ∷ dequeues ∷ exchanges 9 ∷ links 0 ∷ []

run-IsRun_example : IsRun overlapping constructed (run overlapping constructed)
run-IsRun_example = run-IsRun overlapping constructed constructed-IsLinked

-- After another run there are three nodes, and the consumer stands at the second, whose successor waits.
abbrev two : List Step
two = exchanges 7 ∷ exchanges 8 ∷ links 0 ∷ links 0 ∷ dequeues ∷ []

abbrev left : MpscQueue
left = record {
  next = put (put (put (put (λ a. none) 1 none) 2 none) 1 (some 2)) 0 (some 1);
  data_at = put (put (λ a. 0) 1 7) 2 8;
  head = 2;
  tail = 1;
  fresh = 3;
  freed = 0 ∷ [];
  pending = [];
}

two-run : run two constructed ≡ some (left, 7 ∷ [])
unfolding run constructed step exchange link dequeue
two-run = refl

abbrev state_of : Option (MpscQueue × List ℕ) → MpscQueue
state_of none = left
state_of (some (q, out)) = q

left-IsLinked : IsLinked left
left-IsLinked =
    let r = run-IsRun two constructed constructed-IsLinked in
    subst IsLinked (ap state_of (sym r.no_fault ∙ two-run)) r.linked

dequeue-DequeuesFirst_example : DequeuesFirst left (8 ∷ [])
dequeue-DequeuesFirst_example = dequeue-DequeuesFirst left left-IsLinked refl
