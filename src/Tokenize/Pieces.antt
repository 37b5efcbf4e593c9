-- ===== src/Tokenize/Pieces.antt =====
-- src/common/Utilities/Tokenize.cpp: the tokens are the pieces of the text between the separators.
use warhead_discord_client.Common.{
  ℕ, zero, suc, ◌+◌, ◌<◌, ◌≡◌, ◌≢◌, refl, sym, ap, ap₂, ◌∙◌, Bool, true, false, ◌||◌, Bool-cases,
  inl, inr, ◌⊎◌, Option, none, some, List, [], ◌∷◌, ◌++◌, ltb, ◌==◌, if◌then◌else◌, arith, All,
  length, take, drop, drop-drop, length-drop, length-take, lt→ltb, ltb→lt,
}
use warhead_discord_client.Tokenize.{
  find_in, next_place, shifted, push_if, on_end, token_loop, tokenize,
}

abbrev pub onto_first : ℕ → List (List ℕ) → List (List ℕ)
onto_first x [] = (x ∷ []) ∷ []
onto_first x (p ∷ ps) = (x ∷ p) ∷ ps

-- A text cut at each separator.
abbrev pub pieces : ℕ → List ℕ → List (List ℕ)
pieces sep [] = [] ∷ []
pieces sep (x ∷ xs) = if x == sep then [] ∷ pieces sep xs else onto_first x (pieces sep xs)

-- The pieces that are kept.
abbrev pub kept : Bool → List (List ℕ) → List (List ℕ)
kept keep_empty [] = []
kept keep_empty (p ∷ ps) = push_if (keep_empty || ltb 0 (length p)) p (kept keep_empty ps)

-- The text that the pieces come from.
abbrev pub joined : ℕ → List (List ℕ) → List ℕ
joined sep [] = []
joined sep (p ∷ []) = p
joined sep (p ∷ q ∷ ps) = p ++ (sep ∷ joined sep (q ∷ ps))

found-if :
    (sep x : ℕ) (xs : List ℕ) {b : Bool}
    → (x == sep) ≡ b
    → find_in sep (x ∷ xs) ≡ (if b then some 0 else next_place (find_in sep xs))
found-if sep x xs h = ap (λ t. if t then some 0 else next_place (find_in sep xs)) h

pieces-none : (sep : ℕ) (xs : List ℕ) → find_in sep xs ≡ none → pieces sep xs ≡ xs ∷ []
pieces-none sep [] e = refl
pieces-none sep (x ∷ xs) e = elim (Bool-cases (x == sep)) [
  | inl b ↦ absurd (let c : some 0 ≡ none = sym (found-if sep x xs b) ∙ e in cc)
  | inr b ↦
      let rest : next_place (find_in sep xs) ≡ none = sym (found-if sep x xs b) ∙ e in
      rw b (ap (onto_first x) (pieces-none sep xs (no_next (find_in sep xs) rest)))
]
  where
    no_next : (o : Option ℕ) → next_place o ≡ none → o ≡ none
    no_next none e = refl
    no_next (some k) e = absurd (let c : some (suc k) ≡ none = e in cc)

next_place-some : (o : Option ℕ) (k : ℕ) → next_place o ≡ some (suc k) → o ≡ some k
next_place-some none k e = absurd (let c : none ≡ some (suc k) = e in cc)
next_place-some (some j) k e = let c : some (suc j) ≡ some (suc k) = e in cc

next_place-zero : (o : Option ℕ) → next_place o ≢ some 0
next_place-zero none e = absurd (let c : none ≡ some 0 = e in cc)
next_place-zero (some j) e = absurd (let c : some (suc j) ≡ some 0 = e in cc)

pieces-some :
    (sep : ℕ) (xs : List ℕ) (k : ℕ)
    → find_in sep xs ≡ some k
    → (pieces sep xs ≡ take k xs ∷ pieces sep (drop (suc k) xs)) × (k < length xs)
pieces-some sep [] k e = absurd (let c : none ≡ some k = e in cc)
pieces-some sep (x ∷ xs) zero e = elim (Bool-cases (x == sep)) [
  | inl b ↦ (rw b refl, omega arith)
  | inr b ↦ absurd (next_place-zero (find_in sep xs) (sym (found-if sep x xs b) ∙ e))
]
pieces-some sep (x ∷ xs) (suc k) e = elim (Bool-cases (x == sep)) [
  | inl b ↦ absurd (let c : some 0 ≡ some (suc k) = sym (found-if sep x xs b) ∙ e in cc)
  | inr b ↦
      let (p, l) =
        pieces-some sep xs k (next_place-some (find_in sep xs) k (sym (found-if sep x xs b) ∙ e)) in
      (rw b (ap (onto_first x) p), omega arith)
]

pieces-joined-onto :
    (sep x : ℕ) (ps : List (List ℕ)) → joined sep (onto_first x ps) ≡ x ∷ joined sep ps
pieces-joined-onto sep x [] = refl
pieces-joined-onto sep x (p ∷ []) = refl
pieces-joined-onto sep x (p ∷ q ∷ ps) = refl

onto_first-nonempty : (x : ℕ) (ps : List (List ℕ)) → onto_first x ps ≢ []
onto_first-nonempty x [] e = absurd (let c : (x ∷ []) ∷ [] ≡ [] = e in cc)
onto_first-nonempty x (p ∷ ps) e = absurd (let c : (x ∷ p) ∷ ps ≡ [] = e in cc)

pieces-nonempty : (sep : ℕ) (xs : List ℕ) → pieces sep xs ≢ []
pieces-nonempty sep [] = λ e. absurd (let c : [] ∷ [] ≡ [] = e in cc)
pieces-nonempty sep (x ∷ xs) = elim (Bool-cases (x == sep)) [
  | inl b ↦ rw b (λ e. absurd (let c : [] ∷ pieces sep xs ≡ [] = e in cc))
  | inr b ↦ rw b (onto_first-nonempty x (pieces sep xs))
]

joined-first :
    (sep : ℕ) (xs : List ℕ) → joined sep ([] ∷ pieces sep xs) ≡ sep ∷ joined sep (pieces sep xs)
joined-first sep xs = cases (pieces sep xs) (pieces-nonempty sep xs)
  where
    cases : (ps : List (List ℕ)) → ps ≢ [] → joined sep ([] ∷ ps) ≡ sep ∷ joined sep ps
    cases [] n = absurd (n refl)
    cases (p ∷ ps) n = refl

-- Joined by the separator the pieces give the text again.
joined-pieces : (sep : ℕ) (xs : List ℕ) → joined sep (pieces sep xs) ≡ xs
joined-pieces sep [] = refl
joined-pieces sep (x ∷ xs) = elim (Bool-cases (x == sep)) [
  | inl b ↦
      let e : x ≡ sep = ground arith in
      rw b (joined-first sep xs ∙ ap₂ (λ y ys. y ∷ ys) (sym e) (joined-pieces sep xs))
  | inr b ↦
      rw b (pieces-joined-onto sep x (pieces sep xs) ∙ ap (λ ys. x ∷ ys) (joined-pieces sep xs))
]

-- No piece has the separator in it.
pieces-Free : (sep : ℕ) (xs : List ℕ) → All (λ p. find_in sep p ≡ none) (pieces sep xs)
pieces-Free sep [] = (refl, tt)
pieces-Free sep (x ∷ xs) = elim (Bool-cases (x == sep)) [
  | inl b ↦ rw b (refl, pieces-Free sep xs)
  | inr b ↦ rw b (onto_first-Free (pieces sep xs) b (pieces-Free sep xs))
]
  where
    onto_first-Free :
        (ps : List (List ℕ))
        → (x == sep) ≡ false
        → All (λ p. find_in sep p ≡ none) ps
        → All (λ p. find_in sep p ≡ none) (onto_first x ps)
    onto_first-Free [] b v = (found-if sep x [] b, tt)
    onto_first-Free (p ∷ ps) b v = (found-if sep x p b ∙ ap next_place v.0, v.1)

find-cases : (o : Option ℕ) → (o ≡ none) ⊎ ((k : ℕ) × (o ≡ some k))
find-cases none = inl refl
find-cases (some k) = inr (k, refl)

same_test : (a b c d : ℕ) → (a < b → c < d) → (c < d → a < b) → ltb c d ≡ ltb a b
same_test a b c d f g = elim (Bool-cases (ltb a b)) [
  | inl h ↦ lt→ltb c d (f (ltb→lt a b h)) ∙ sym h
  | inr h ↦ elim (Bool-cases (ltb c d)) [
    | inl k ↦ absurd (let e : true ≡ false = sym (lt→ltb a b (g (ltb→lt c d k))) ∙ h in cc)
    | inr k ↦ k ∙ sym h
  ]
]

token_loop-pieces :
    (fuel : ℕ) (str : List ℕ) (sep : ℕ) (keep_empty : Bool) (start : ℕ)
    → length (drop start str) < fuel
    → token_loop fuel str sep keep_empty start ≡ kept keep_empty (pieces sep (drop start str))
unfolding token_loop
token_loop-pieces zero str sep keep_empty start h = absurd (omega arith)
token_loop-pieces (suc fuel) str sep keep_empty start h =
    elim (find-cases (find_in sep (drop start str))) [
      | inl e ↦
          let rest = drop start str in
          ap (λ o. on_end o (token_loop fuel str sep keep_empty) str keep_empty start)
            (ap (shifted start) e)
          ∙ ap (λ c. push_if (keep_empty || c) rest [])
              (same_test 0 (length rest) start (length str)
                (λ t. omega (arith, length-drop start str))
                (λ t. omega (arith, length-drop start str)))
          ∙ ap (kept keep_empty) (sym (pieces-none sep rest e))
      | inr (k, e) ↦
          let rest = drop start str in
          let (p, l) = pieces-some sep rest k e in
          let after : drop (start + k + 1) str ≡ drop (suc k) rest =
            sym (drop-drop (suc k) start (start + k + 1) str (omega arith)) in
          let next =
            token_loop-pieces fuel str sep keep_empty (start + k + 1)
              (omega (arith, ap length after, length-drop (suc k) rest)) in
          ap (λ o. on_end o (token_loop fuel str sep keep_empty) str keep_empty start)
            (ap (shifted start) e)
          ∙ ap₂
              (λ c t.
                push_if (keep_empty || c) (take t rest)
                  (token_loop fuel str sep keep_empty (start + k + 1)))
              (same_test 0 (length (take k rest)) start (start + k)
                (λ t. omega (arith, length-take k rest)) (λ t. omega (arith, length-take k rest)))
              (omega arith)
          ∙ ap (push_if (keep_empty || ltb 0 (length (take k rest))) (take k rest))
              (next ∙ ap (λ r. kept keep_empty (pieces sep r)) after)
          ∙ ap (kept keep_empty) (sym p)
    ]

-- `Tokenize` gives the pieces of the text between the separators, in order: all of them, or those that are
-- not empty. Joined by the separator the pieces are the text, and no piece has a separator in it.
pub tokenize-pieces :
    (str : List ℕ) (sep : ℕ) (keep_empty : Bool)
    → (tokenize str sep keep_empty ≡ kept keep_empty (pieces sep str))
      × (joined sep (pieces sep str) ≡ str)
      × All (λ p. find_in sep p ≡ none) (pieces sep str)
unfolding tokenize
tokenize-pieces str sep keep_empty = (
  token_loop-pieces (suc (length str)) str sep keep_empty 0 (omega arith),
  joined-pieces sep str,
  pieces-Free sep str,
)
