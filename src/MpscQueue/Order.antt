-- ===== src/MpscQueue/Order.antt =====
-- src/common/Threading/MPSCQueue.h: the consumer gets what the producers put in, in the order of their
-- exchanges, and nobody touches a deleted node.
use warhead_discord_client.Common.{
  ℕ, suc, ◌-◌, ◌<◌, ◌≡◌, refl, sym, ap, ap₂, ◌∙◌, subst, if◌then◌else◌, Option, none, some, inl,
  inr, List, [], ◌∷◌, ◌++◌, append_assoc, append-nil, arith, get_elem?, ℕ_discrete,
}
use warhead_discord_client.MpscQueue.{
  Pending, MpscQueue, put, remove_at, exchange, on_pending, link, on_next, dequeue, constructed,
  Step, exchanges, links, dequeues, no_output, step, output, with_output, then_run, run,
}
use warhead_discord_client.MpscQueue.Linking.{
  put_self, put_other, IsAmong, IsLinked, range, waiting, range-put, range-snoc, live, All-grows,
  AreLinking-put, AreLinking-get, AreLinking-remove, AreLinking-tail, IsAmong-remove,
}

abbrev pub input : Step → List ℕ
input (exchanges v) = v ∷ []
input (links i) = []
input dequeues = []

-- The inputs in the order of their exchanges.
abbrev pub inputs : List Step → List ℕ
inputs [] = []
inputs (s ∷ steps) = input s ++ inputs steps

-- What a step comes to.
record Stepped (s : Step) (q q' : MpscQueue) (v : Option ℕ) : Type 0 where
  linked : IsLinked q'
  stream : output v (waiting q') ≡ waiting q ++ input s

exchange-Stepped :
    (v : ℕ) (q : MpscQueue) → IsLinked q → Stepped (exchanges v) q (exchange v q) none
unfolding exchange
exchange-Stepped v q l =
    let o = l.ordered in
    let f = l.last in
    record {
      linked = record {
        last = refl;
        ordered = omega arith;
        nexts = λ a. elim (ℕ_discrete a q.fresh) [
          | yes e ↦ inl (put_self q.next q.fresh a none e)
          | no n ↦ elim (l.nexts a) [
            | inl e ↦ inl (put_other q.next q.fresh a none n ∙ e)
            | inr (e, b) ↦ inr (put_other q.next q.fresh a none n ∙ e, omega arith)
          ]
        ];
        freed = l.freed;
        linking = (
          sym f,
          o,
          omega arith,
          put_other q.next q.fresh q.head none (λ e. absurd (omega arith)) ∙ last_next,
          AreLinking-put q.tail q.head q.fresh q.next none q.pending (omega arith) l.linking,
        );
        among = λ a t b e. elim (ℕ_discrete q.head a) [
          | yes s ↦ inl s
          | no n ↦ inr (
              l.among a t (ground arith)
                (sym (put_other q.next q.fresh a none (λ s. absurd (omega arith))) ∙ e))
        ];
      };
      stream =
          ap (range (put q.data_at q.fresh v) (suc q.tail)) {y = suc (q.head - q.tail)}
            (omega arith)
          ∙ range-snoc (put q.data_at q.fresh v) (suc q.tail) (q.head - q.tail) q.fresh
              (omega arith)
          ∙ ap₂ (λ xs x. xs ++ (x ∷ []))
              (range-put q.data_at q.fresh v (suc q.tail) (q.head - q.tail) (omega arith))
              (put_self q.data_at q.fresh q.fresh v refl);
    }
  where
    last_next : q.next q.head ≡ none
    last_next = elim (l.nexts q.head) [ inl e ↦ e | inr (e, b) ↦ absurd (omega arith) ]

on_pending-Stepped :
    (o : Option Pending) (i : ℕ) (q : MpscQueue)
    → get_elem? q.pending i ≡ o
    → IsLinked q
    → (q' : MpscQueue) × (on_pending o i q ≡ some q') × Stepped (links i) q q' none
on_pending-Stepped none i q g l =
    (q, refl, record { linked = l; stream = sym (append-nil (waiting q)) })
on_pending-Stepped (some p) i q g l =
    let (n, t, b) = AreLinking-get q.tail q.head i q.next q.pending p l.linking g in
    let q' : MpscQueue = record q {
      next = put q.next p.prev_head (some p.node);
      pending = remove_at i q.pending;
    } in
    (
      q',
      ap (λ c. if c then none else some q') (live p.prev_head q.tail q.freed l.freed t),
      record {
        linked = record {
          last = l.last;
          ordered = l.ordered;
          nexts = λ a. elim (ℕ_discrete a p.prev_head) [
            | yes e ↦ inr (
              put_self q.next p.prev_head a (some p.node) e ∙ ap some (n ∙ ap suc (sym e)),
              omega arith,
            )
            | no m ↦ elim (l.nexts a) [
              | inl e ↦ inl (put_other q.next p.prev_head a (some p.node) m ∙ e)
              | inr (e, c) ↦ inr (put_other q.next p.prev_head a (some p.node) m ∙ e, c)
            ]
          ];
          freed = l.freed;
          linking = AreLinking-remove q.tail q.head i q.next (some p.node) q.pending p l.linking g;
          among = λ a t' b' e. elim (ℕ_discrete a p.prev_head) [
            | yes s ↦ absurd (
                let c : some p.node ≡ none =
                  sym (put_self q.next p.prev_head a (some p.node) s) ∙ e in
                cc)
            | no m ↦
                IsAmong-remove a i q.pending p g m
                  (l.among a t' b' (sym (put_other q.next p.prev_head a (some p.node) m) ∙ e))
          ];
        };
        stream = sym (append-nil (waiting q));
      },
    )

-- What the consumer finds.
dequeue-none : (q : MpscQueue) → IsLinked q → q.next q.tail ≡ none → dequeue q ≡ some (q, none)
unfolding dequeue
dequeue-none q l e =
    ap (λ c. if c then none else on_next (q.next q.tail) q)
      (live q.tail q.tail q.freed l.freed (omega arith))
    ∙ ap (λ o. on_next o q) e

abbrev advanced : MpscQueue → MpscQueue
advanced q = record q { tail = suc q.tail; freed = q.tail ∷ q.freed }

dequeue-some :
    (q : MpscQueue)
    → IsLinked q
    → q.next q.tail ≡ some (suc q.tail)
    → dequeue q ≡ some (advanced q, some (q.data_at (suc q.tail)))
unfolding dequeue
dequeue-some q l e =
    ap (λ c. if c then none else on_next (q.next q.tail) q)
      (live q.tail q.tail q.freed l.freed (omega arith))
    ∙ ap (λ o. on_next o q) e
    ∙ ap (λ c. if c then none else some (advanced q, some (q.data_at (suc q.tail))))
        (live (suc q.tail) q.tail q.freed l.freed (omega arith))

waiting-split :
    (q : MpscQueue) → q.tail < q.head → waiting q ≡ q.data_at (suc q.tail) ∷ waiting (advanced q)
waiting-split q b = ap (range q.data_at (suc q.tail)) {y = suc (q.head - suc q.tail)} (omega arith)

advanced-Stepped :
    (q : MpscQueue)
    → IsLinked q
    → q.next q.tail ≡ some (suc q.tail)
    → q.tail < q.head
    → Stepped dequeues q (advanced q) (some (q.data_at (suc q.tail)))
advanced-Stepped q l e b = record {
  linked = record {
    last = l.last;
    ordered = omega arith;
    nexts = l.nexts;
    freed = (omega arith, All-grows q.tail (suc q.tail) q.freed (omega arith) l.freed);
    linking = AreLinking-tail q.tail q.head q.next (suc q.tail) q.pending e l.linking;
    among = λ a t c z. l.among a (omega arith) c z;
  };
  stream = sym (waiting-split q b) ∙ sym (append-nil (waiting q));
}

step-Stepped :
    (s : Step) (q : MpscQueue)
    → IsLinked q
    → (q' : MpscQueue) × (v : Option ℕ) × (step s q ≡ some (q', v)) × Stepped s q q' v
unfolding step link
step-Stepped (exchanges v) q l = (exchange v q, none, refl, exchange-Stepped v q l)
step-Stepped (links i) q l =
    let (q', e, r) = on_pending-Stepped (get_elem? q.pending i) i q refl l in
    (q', none, ap no_output e, r)
step-Stepped dequeues q l = elim (l.nexts q.tail) [
  | inl e ↦
      (q, none, dequeue-none q l e, record { linked = l; stream = sym (append-nil (waiting q)) })
  | inr (e, b) ↦
      (advanced q, some (q.data_at (suc q.tail)), dequeue-some q l e, advanced-Stepped q l e b)
]

-- What a run comes to.
pub record IsRun (steps : List Step) (q : MpscQueue) (r : Option (MpscQueue × List ℕ))
    : Type 0 where
  pub after : MpscQueue
  pub out : List ℕ
  pub no_fault : r ≡ some (after, out)
  pub linked : IsLinked after
  pub stream : out ++ waiting after ≡ waiting q ++ inputs steps

output-append : (v : Option ℕ) (xs ys : List ℕ) → output v xs ++ ys ≡ output v (xs ++ ys)
output-append none xs ys = refl
output-append (some x) xs ys = refl

-- From a well-formed queue, in any interleaving of the steps of any number of producers and of the
-- consumer, no step touches a deleted node, and what the consumer got, followed by what waits, is
-- what waited at first and then the inputs in the order of their exchanges.
pub run-IsRun : (steps : List Step) (q : MpscQueue) → IsLinked q → IsRun steps q (run steps q)
unfolding run
run-IsRun [] q l = record {
  after = q;
  out = [];
  no_fault = refl;
  linked = l;
  stream = sym (append-nil (waiting q));
}
run-IsRun (s ∷ steps) q l =
    let (q', v, e, r) = step-Stepped s q l in
    let rest = run-IsRun steps q' r.linked in
    record {
      after = rest.after;
      out = output v rest.out;
      no_fault = ap (λ o. then_run o (run steps)) e ∙ ap (with_output v) rest.no_fault;
      linked = rest.linked;
      stream =
          output-append v rest.out (waiting rest.after)
          ∙ ap (output v) rest.stream
          ∙ sym (output-append v (waiting q') (inputs steps))
          ∙ ap (λ xs. xs ++ inputs steps) r.stream
          ∙ append_assoc (waiting q) (input s) (inputs steps);
    }

-- What `Dequeue` gives when no producer is between its two steps.
abbrev pub DequeuesFirst : MpscQueue → List ℕ → Type 0
DequeuesFirst q [] = dequeue q ≡ some (q, none)
DequeuesFirst q (v ∷ rest) =
    (q' : MpscQueue) × (dequeue q ≡ some (q', some v)) × (waiting q' ≡ rest)

-- When no producer is between its two steps, `Dequeue` on a well-formed queue takes out the first of
-- the values that wait, and returns false only when none waits.
pub dequeue-DequeuesFirst :
    (q : MpscQueue) → IsLinked q → q.pending ≡ [] → DequeuesFirst q (waiting q)
dequeue-DequeuesFirst q l p = elim (ℕ_discrete q.tail q.head) [
  | yes e ↦
      let empty : waiting q ≡ [] = ap (range q.data_at (suc q.tail)) {y = 0} (omega arith) in
      subst (DequeuesFirst q) (sym empty)
        (dequeue-none q l (elim (l.nexts q.tail) [ inl z ↦ z | inr (z, b) ↦ absurd (omega arith) ]))
  | no n ↦
      let b : q.tail < q.head = let o = l.ordered in ground arith in
      elim (l.nexts q.tail) [
        | inl z ↦ absurd (subst (IsAmong q.tail) p (l.among q.tail (omega arith) b z))
        | inr (z, c) ↦
            subst (DequeuesFirst q) (sym (waiting-split q b)) (advanced q, dequeue-some q l z, refl)
      ]
]

pub constructed-IsLinked : IsLinked constructed
unfolding constructed
constructed-IsLinked = record {
  last = refl;
  ordered = omega arith;
  nexts = λ a. inl refl;
  freed = tt;
  linking = tt;
  among = λ a t b e. absurd (omega arith);
}
