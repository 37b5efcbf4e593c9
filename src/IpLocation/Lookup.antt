-- ===== src/IpLocation/Lookup.antt =====
-- src/common/IPLocation/IPLocation.cpp: what the search finds in a table that passes the assertion.
use warhead_discord_client.Common.{
  ℕ, zero, suc, ◌≤◌, ◌<◌, ◌≡◌, refl, sym, ap, ◌∙◌, subst, Bool, true, false, Bool-cases, Option,
  none, some, List, [], ◌∷◌, inl, inr, ◌⊎◌, if◌then◌else◌, ltb, ltb→lt, lt→ltb, arith, All, length,
  get_elem?, ℕ_discrete, dec_lt,
}
use warhead_discord_client.IpLocation.{
  IpLocationRecord, is_sorted, ends_after, upper_bound, containing, get_location_record,
}
use warhead_discord_client.IpLocation.Search.{IsFirst, upper_bound-IsFirst}

-- Ranges that end where they begin or later.
abbrev pub AreRanges : List IpLocationRecord → Type 0
AreRanges store = All (λ r. r.ip_from ≤ r.ip_to) store

-- Ranges of which each ends before the next one begins, or where it begins.
abbrev AreDisjoint : List IpLocationRecord → Type 0
AreDisjoint [] = Unit {0}
AreDisjoint (a ∷ rest) = All (λ r. a.ip_to ≤ r.ip_from) rest × AreDisjoint rest

All-from :
    (b c : ℕ) (rs : List IpLocationRecord)
    → b ≤ c
    → All (λ r. c ≤ r.ip_from) rs
    → All (λ r. b ≤ r.ip_from) rs
All-from b c [] h v = tt
All-from b c (r ∷ rs) h v = (omega (arith, v.0), All-from b c rs h v.1)

is_sorted-step :
    (a b : IpLocationRecord) (rest : List IpLocationRecord)
    → is_sorted (a ∷ b ∷ rest) ≡ true
    → (a.ip_to ≤ b.ip_from) × (is_sorted (b ∷ rest) ≡ true)
unfolding is_sorted
is_sorted-step a b rest e = elim (Bool-cases (ltb b.ip_from a.ip_to)) [
  | inl l ↦ absurd (ground arith)
  | inr l ↦ (ground arith, ground arith)
]

is_sorted-AreDisjoint :
    (store : List IpLocationRecord) → is_sorted store ≡ true → AreRanges store → AreDisjoint store
is_sorted-AreDisjoint [] e v = tt
is_sorted-AreDisjoint (a ∷ []) e v = (tt, tt)
is_sorted-AreDisjoint (a ∷ b ∷ rest) e v =
    let (l, s) = is_sorted-step a b rest e in
    let r = is_sorted-AreDisjoint (b ∷ rest) s v.1 in
    ((l, All-from a.ip_to b.ip_to rest (omega (arith, v.1.0)) r.0), r)

All-get :
    (P : IpLocationRecord → Type 0) (store : List IpLocationRecord) (i : ℕ) (r : IpLocationRecord)
    → All P store
    → get_elem? store i ≡ some r
    → P r
All-get P [] i r v e = absurd (let c : none ≡ some r = e in cc)
All-get P (x ∷ xs) zero r v e = let s : x ≡ r = cc in subst P s v.0
All-get P (x ∷ xs) (suc i) r v e = All-get P xs i r v.1 e

All-of :
    {P : IpLocationRecord → Type 0} (store : List IpLocationRecord)
    → ((i : ℕ) (r : IpLocationRecord) → get_elem? store i ≡ some r → P r)
    → All P store
All-of [] f = tt
All-of (x ∷ xs) f = (f 0 x refl, All-of xs (λ i r e. f (suc i) r e))

disjoint-get :
    (store : List IpLocationRecord) (i j : ℕ) (a b : IpLocationRecord)
    → AreDisjoint store
    → i < j
    → get_elem? store i ≡ some a
    → get_elem? store j ≡ some b
    → a.ip_to ≤ b.ip_from
disjoint-get [] i j a b v h e f = absurd (let c : none ≡ some a = e in cc)
disjoint-get (x ∷ xs) i zero a b v h e f = absurd (omega arith)
disjoint-get (x ∷ xs) zero (suc j) a b v h e f =
    let s : x ≡ a = cc in
    let l : x.ip_to ≤ b.ip_from = All-get (λ r. x.ip_to ≤ r.ip_from) xs j b v.0 f in
    omega (arith, ap (λ (r : IpLocationRecord). r.ip_to) s)
disjoint-get (x ∷ xs) (suc i) (suc j) a b v h e f = disjoint-get xs i j a b v.1 (omega arith) e f

get-end :
    (store : List IpLocationRecord) (i j : ℕ)
    → i ≤ j
    → get_elem? store i ≡ none
    → get_elem? store j ≡ none
get-end [] i j h e = refl
get-end (x ∷ xs) zero j h e = absurd (let c : some x ≡ none = e in cc)
get-end (x ∷ xs) (suc i) zero h e = absurd (omega arith)
get-end (x ∷ xs) (suc i) (suc j) h e = get-end xs i j (omega arith) e

-- What an index holds.
get-cases :
    (store : List IpLocationRecord) (i : ℕ)
    → (get_elem? store i ≡ none) ⊎ ((r : IpLocationRecord) × (get_elem? store i ≡ some r))
get-cases store i = cases (get_elem? store i) refl
  where
    cases :
        (o : Option IpLocationRecord)
        → get_elem? store i ≡ o
        → (get_elem? store i ≡ none) ⊎ ((r : IpLocationRecord) × (get_elem? store i ≡ some r))
    cases none e = inl e
    cases (some r) e = inr (r, e)

ends_after-true :
    (ip : ℕ) (o : Option IpLocationRecord) (r : IpLocationRecord)
    → o ≡ some r
    → ends_after ip o ≡ true
    → ip < r.ip_to
ends_after-true ip o r e t = ltb→lt ip r.ip_to (sym (ap (ends_after ip) e) ∙ t)

ends_after-false :
    (ip : ℕ) (o : Option IpLocationRecord) (r : IpLocationRecord)
    → o ≡ some r
    → ends_after ip o ≡ false
    → r.ip_to ≤ ip
ends_after-false ip o r e t =
    let f : ltb ip r.ip_to ≡ false = sym (ap (ends_after ip) e) ∙ t in ground arith

ends_after-grows :
    (ip : ℕ) (store : List IpLocationRecord) (i j : ℕ)
    → AreRanges store
    → AreDisjoint store
    → i ≤ j
    → ends_after ip (get_elem? store i) ≡ true
    → ends_after ip (get_elem? store j) ≡ true
ends_after-grows ip store i j v d h t = elim (ℕ_discrete i j) [
  | yes e ↦ sym (ap (λ k. ends_after ip (get_elem? store k)) e) ∙ t
  | no n ↦ elim (get-cases store j) [
    | inl e ↦ ap (ends_after ip) e
    | inr (b, e) ↦ elim (get-cases store i) [
      | inl f ↦ ap (ends_after ip) (get-end store i j h f)
      | inr (a, f) ↦
          let l = disjoint-get store i j a b d (omega arith) f e in
          let m : b.ip_from ≤ b.ip_to = All-get (λ r. r.ip_from ≤ r.ip_to) store j b v e in
          let u = ends_after-true ip (get_elem? store i) a f t in
          ap (ends_after ip) e ∙ lt→ltb ip b.ip_to (omega arith)
    ]
  ]
]

-- A record that was found contains the address; when none is found no record does. The end of a
-- range does not belong to it.
abbrev pub Finds : ℕ → List IpLocationRecord → Option IpLocationRecord → Type 0
Finds ip store none = All (λ r. (ip < r.ip_from) ⊎ (r.ip_to ≤ ip)) store
Finds ip store (some r) = (i : ℕ) × (get_elem? store i ≡ some r) × (r.ip_from ≤ ip) × (ip < r.ip_to)

module _ (ip : ℕ) (store : List IpLocationRecord) (k : ℕ) (v : AreRanges store)
    (d : AreDisjoint store)
    (f : IsFirst (λ i. ends_after ip (get_elem? store i)) 0 (length store) k) where
  before : (i : ℕ) (r : IpLocationRecord) → i < k → get_elem? store i ≡ some r → r.ip_to ≤ ip
  before i r h e = ends_after-false ip (get_elem? store i) r e (f.fail i (omega arith) h)

  missing_end : get_elem? store k ≡ none → Finds ip store none
  missing_end e = All-of store (λ i r g. elim (dec_lt i k) [
    | yes h ↦ inr (before i r h g)
    | no h ↦ absurd (let c : none ≡ some r = sym (get-end store k i (omega arith) e) ∙ g in cc)
  ])

  missing_gap :
      (s : IpLocationRecord) → get_elem? store k ≡ some s → ip < s.ip_from → Finds ip store none
  missing_gap s e l = All-of store (λ i r g. elim (dec_lt i k) [
    | yes h ↦ inr (before i r h g)
    | no h ↦ elim (ℕ_discrete k i) [
      | yes same ↦
          let c : some s ≡ some r = sym e ∙ ap (get_elem? store) same ∙ g in
          let b : s ≡ r = cc in inl (omega (arith, ap (λ (x : IpLocationRecord). x.ip_from) b))
      | no n ↦
          let m : s.ip_from ≤ s.ip_to = All-get (λ r. r.ip_from ≤ r.ip_to) store k s v e in
          inl (omega (arith, disjoint-get store k i s r d (omega arith) e g))
    ]
  ])

get-bound :
    (store : List IpLocationRecord) (k : ℕ) (r : IpLocationRecord)
    → get_elem? store k ≡ some r
    → k < length store
get-bound [] k r e = absurd (let c : none ≡ some r = e in cc)
get-bound (x ∷ xs) zero r e = omega arith
get-bound (x ∷ xs) (suc k) r e = omega (arith, get-bound xs k r e)

-- On a table that passes the assertion of `Load`, and whose ranges end where they begin or later,
-- `GetLocationRecord` finds a record whose range holds the address, its end excluded, and returns
-- null only when no range holds it.
pub get_location_record-Finds :
    (ip : ℕ) (store : List IpLocationRecord)
    → is_sorted store ≡ true
    → AreRanges store
    → Finds ip store (get_location_record ip store)
unfolding get_location_record
get_location_record-Finds ip store e v =
    let n = length store in
    let d = is_sorted-AreDisjoint store e v in
    let test : ℕ → Bool = λ i. ends_after ip (get_elem? store i) in
    let u =
      upper_bound-IsFirst n test 0 n (omega arith)
        (λ i j h g t. ends_after-grows ip store i j v d h t) in
    let k = upper_bound n test 0 n in
    let f : IsFirst test 0 n k = record {
      from = u.from;
      within = omega (arith, u.within);
      fail = u.fail;
      pass = λ i l g. u.pass i l (omega arith);
    } in
    elim (get-cases store k) [
      | inl g ↦
          subst (λ o. Finds ip store (containing ip o)) (sym g) (missing_end ip store k v d f g)
      | inr (r, g) ↦
          subst (λ o. Finds ip store (containing ip o)) (sym g)
            (elim (Bool-cases (ltb ip r.ip_from)) [
              | inl l ↦
                  subst (λ b. Finds ip store (if b then none else some r)) (sym l)
                    (missing_gap ip store k v d f r g (ltb→lt ip r.ip_from l))
              | inr l ↦
                  subst (λ b. Finds ip store (if b then none else some r)) (sym l)
                    (
                      k,
                      g,
                      ground arith,
                      ends_after-true ip (get_elem? store k) r g
                          (f.pass k (omega arith) (get-bound store k r g)),
                    )
            ])
    ]
