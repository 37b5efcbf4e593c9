-- ===== src/MpscQueue/Linking.antt =====
-- src/common/Threading/MPSCQueue.h: the nodes between the steps of the producers and the consumer.
use warhead_discord_client.Common.{
  ℕ, zero, suc, ◌+◌, ◌-◌, ◌≤◌, ◌<◌, ◌≡◌, ◌≢◌, refl, sym, ap, ap₂, ◌∙◌, subst, false, Option, none,
  some, inl, inr, ◌⊎◌, List, [], ◌∷◌, ◌++◌, arith, All, get_elem?, ℕ_discrete,
}
use warhead_discord_client.MpscQueue.{Pending, MpscQueue, put, is_in, remove_at}

pub put_self : {A : Type 0} (f : ℕ → A) (a b : ℕ) (v : A) → b ≡ a → put f a v b ≡ v
put_self f a b v h = ground arith

pub put_other : {A : Type 0} (f : ℕ → A) (a b : ℕ) (v : A) → b ≢ a → put f a v b ≡ f b
put_other f a b v h = ground arith

-- The producers between their steps, the last exchange first: each is to link an old head, from
-- `tail` on and below `bound`, to the next node.
abbrev pub AreLinking : (tail : ℕ) → (ℕ → Option ℕ) → (bound : ℕ) → List Pending → Type 0
AreLinking tail next bound [] = Unit {0}
AreLinking tail next bound (p ∷ ps) =
    (p.node ≡ suc p.prev_head)
    × (tail ≤ p.prev_head)
    × (p.prev_head < bound)
    × (next p.prev_head ≡ none)
    × AreLinking tail next p.prev_head ps

abbrev pub IsAmong : ℕ → List Pending → Type 0
IsAmong a [] = ⊥
IsAmong a (p ∷ ps) = (p.prev_head ≡ a) ⊎ IsAmong a ps

-- Nodes are named in the order of the exchanges; each links to the next or to nothing, and in the
-- latter case a producer is about to link it.
pub record IsLinked (q : MpscQueue) : Type 0 where
  pub last : suc q.head ≡ q.fresh
  pub ordered : q.tail ≤ q.head
  pub nexts : (a : ℕ) → (q.next a ≡ none) ⊎ ((q.next a ≡ some (suc a)) × (a < q.head))
  pub freed : All (λ a. a < q.tail) q.freed
  pub linking : AreLinking q.tail q.next q.head q.pending
  pub among : (a : ℕ) → q.tail ≤ a → a < q.head → q.next a ≡ none → IsAmong a q.pending

abbrev pub range : (ℕ → ℕ) → ℕ → ℕ → List ℕ
range f i zero = []
range f i (suc k) = f i ∷ range f (suc i) k

-- The inputs that were not yet taken out.
abbrev pub waiting : MpscQueue → List ℕ
waiting q = range q.data_at (suc q.tail) (q.head - q.tail)

pub range-put : (f : ℕ → ℕ) (n v i k : ℕ) → i + k ≤ n → range (put f n v) i k ≡ range f i k
range-put f n v i zero h = refl
range-put f n v i (suc k) h =
    ap₂ (λ x xs. x ∷ xs) (put_other f n i v (λ e. absurd (omega arith)))
      (range-put f n v (suc i) k (omega arith))

pub range-snoc : (f : ℕ → ℕ) (i k j : ℕ) → j ≡ i + k → range f i (suc k) ≡ range f i k ++ (f j ∷ [])
range-snoc f i zero j e = ap (λ n. f n ∷ []) (omega arith)
range-snoc f i (suc k) j e = ap (λ xs. f i ∷ xs) (range-snoc f (suc i) k j (omega arith))

pub live : (a tail : ℕ) (xs : List ℕ) → All (λ x. x < tail) xs → tail ≤ a → is_in a xs ≡ false
live a tail [] v h = refl
live a tail (x ∷ xs) v h = let r = live a tail xs v.1 h in let l = v.0 in ground arith

pub All-grows : (t t' : ℕ) (xs : List ℕ) → t ≤ t' → All (λ x. x < t) xs → All (λ x. x < t') xs
All-grows t t' [] h v = tt
All-grows t t' (x ∷ xs) h v = (omega (arith, v.0), All-grows t t' xs h v.1)

-- A change of a link that no producer is about to store.
pub AreLinking-put :
    (tail bound a : ℕ) (next : ℕ → Option ℕ) (o : Option ℕ) (ps : List Pending)
    → bound ≤ a
    → AreLinking tail next bound ps
    → AreLinking tail (put next a o) bound ps
AreLinking-put tail bound a next o [] h v = tt
AreLinking-put tail bound a next o (p ∷ ps) h (n, t, b, e, r) = (
  n,
  t,
  b,
  put_other next a p.prev_head o (λ e. absurd (omega arith)) ∙ e,
  AreLinking-put tail p.prev_head a next o ps (omega arith) r,
)

AreLinking-raise :
    (tail b c : ℕ) (next : ℕ → Option ℕ) (ps : List Pending)
    → b ≤ c
    → AreLinking tail next b ps
    → AreLinking tail next c ps
AreLinking-raise tail b c next [] h v = tt
AreLinking-raise tail b c next (p ∷ ps) h (n, t, l, e, r) = (n, t, omega arith, e, r)

-- The i-th of the producers.
pub AreLinking-get :
    (tail bound i : ℕ) (next : ℕ → Option ℕ) (ps : List Pending) (p : Pending)
    → AreLinking tail next bound ps
    → get_elem? ps i ≡ some p
    → (p.node ≡ suc p.prev_head) × (tail ≤ p.prev_head) × (p.prev_head < bound)
AreLinking-get tail bound i next [] p v e = absurd (let c : none ≡ some p = e in cc)
AreLinking-get tail bound zero next (x ∷ ps) p (n, t, b, h, r) e =
    let s : x ≡ p = cc in
    subst (λ p. (p.node ≡ suc p.prev_head) × (tail ≤ p.prev_head) × (p.prev_head < bound)) s
      (n, t, b)
AreLinking-get tail bound (suc i) next (x ∷ ps) p (n, t, b, h, r) e =
    let (n', t', b') = AreLinking-get tail x.prev_head i next ps p r e in (n', t', omega arith)

-- It stores its link and is gone.
pub AreLinking-remove :
    (tail bound i : ℕ) (next : ℕ → Option ℕ) (o : Option ℕ) (ps : List Pending) (p : Pending)
    → AreLinking tail next bound ps
    → get_elem? ps i ≡ some p
    → AreLinking tail (put next p.prev_head o) bound (remove_at i ps)
AreLinking-remove tail bound i next o [] p v e = absurd (let c : none ≡ some p = e in cc)
AreLinking-remove tail bound zero next o (x ∷ ps) p (n, t, b, h, r) e =
    let s : x ≡ p = cc in
    subst (λ p. AreLinking tail (put next p.prev_head o) bound ps) s
      (AreLinking-raise tail x.prev_head bound (put next x.prev_head o) ps (omega arith)
        (AreLinking-put tail x.prev_head x.prev_head next o ps (omega arith) r))
AreLinking-remove tail bound (suc i) next o (x ∷ ps) p (n, t, b, h, r) e =
    let (n', t', b') = AreLinking-get tail x.prev_head i next ps p r e in
    (
      n,
      t,
      b,
      put_other next p.prev_head x.prev_head o (λ e. absurd (omega arith)) ∙ h,
      AreLinking-remove tail x.prev_head i next o ps p r e,
    )

pub AreLinking-tail :
    (tail bound : ℕ) (next : ℕ → Option ℕ) (n : ℕ) (ps : List Pending)
    → next tail ≡ some n
    → AreLinking tail next bound ps
    → AreLinking (suc tail) next bound ps
AreLinking-tail tail bound next n [] h v = tt
AreLinking-tail tail bound next n (p ∷ ps) h (m, t, b, e, r) = (
  m,
  elim (ℕ_discrete tail p.prev_head) [
    | yes s ↦ absurd (let c : none ≡ some n = sym e ∙ ap next (sym s) ∙ h in cc)
    | no s ↦ ground arith
  ],
  b,
  e,
  AreLinking-tail tail p.prev_head next n ps h r,
)

pub IsAmong-remove :
    (a i : ℕ) (ps : List Pending) (p : Pending)
    → get_elem? ps i ≡ some p
    → a ≢ p.prev_head
    → IsAmong a ps
    → IsAmong a (remove_at i ps)
IsAmong-remove a i [] p e n v = absurd v
IsAmong-remove a zero (x ∷ ps) p e n (inl s) =
    absurd (let y : x ≡ p = cc in n (sym s ∙ ap (λ (z : Pending). z.prev_head) y))
IsAmong-remove a zero (x ∷ ps) p e n (inr v) = v
IsAmong-remove a (suc i) (x ∷ ps) p e n (inl s) = inl s
IsAmong-remove a (suc i) (x ∷ ps) p e n (inr v) = inr (IsAmong-remove a i ps p e n v)
