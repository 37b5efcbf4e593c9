-- ===== src/IpLocation/Sorting/Insertion.antt =====
-- A sorting that keeps what `Load` in src/common/IPLocation/IPLocation.cpp relies on, for runs of it.
use mathlib.Core.List.Perm
use mathlib.Core.List.{Perm}
use warhead_discord_client.Common.{
  ◌≡◌, Bool, false, Bool-cases, inl, inr, List, [], ◌∷◌, if◌then◌else◌, All,
}
use warhead_discord_client.IpLocation.{IpLocationRecord}
use warhead_discord_client.IpLocation.Sorting.{IsStrictWeakOrder, IsSortedBy, Sorting}

module _ (less : IpLocationRecord → IpLocationRecord → Bool) where
  abbrev insert : IpLocationRecord → List IpLocationRecord → List IpLocationRecord
  insert a [] = a ∷ []
  insert a (b ∷ bs) = let later = insert a bs in if less b a then b ∷ later else a ∷ b ∷ bs

  abbrev sorted_by_insertion : List IpLocationRecord → List IpLocationRecord
  sorted_by_insertion [] = []
  sorted_by_insertion (a ∷ rest) = insert a (sorted_by_insertion rest)

  insert-Perm : (a : IpLocationRecord) (rs : List IpLocationRecord) → Perm (insert a rs) (a ∷ rs)
  insert-Perm a [] = Perm.rfl
  insert-Perm a (b ∷ bs) = elim (Bool-cases (less b a)) [
    | inl e ↦ rw e (Perm.trans (Perm.cons b (insert-Perm a bs)) (Perm.swap a b bs))
    | inr e ↦ rw e Perm.rfl
  ]

  pub sorted_by_insertion-Perm : (rs : List IpLocationRecord) → Perm (sorted_by_insertion rs) rs
  sorted_by_insertion-Perm [] = Perm.rfl
  sorted_by_insertion-Perm (a ∷ rest) =
      Perm.trans (insert-Perm a (sorted_by_insertion rest))
        (Perm.cons a (sorted_by_insertion-Perm rest))

  module _ (w : IsStrictWeakOrder less) where
    none_before_insert :
        (b a : IpLocationRecord) (rs : List IpLocationRecord)
        → less a b ≡ false
        → All (λ r. less r b ≡ false) rs
        → All (λ r. less r b ≡ false) (insert a rs)
    none_before_insert b a [] e v = (e, tt)
    none_before_insert b a (c ∷ cs) e v = elim (Bool-cases (less c a)) [
      | inl f ↦ rw f (v.0, none_before_insert b a cs e v.1)
      | inr f ↦ rw f (e, v)
    ]

    none_before_first :
        (a b : IpLocationRecord) (rs : List IpLocationRecord)
        → less b a ≡ false
        → All (λ r. less r b ≡ false) rs
        → All (λ r. less r a ≡ false) rs
    none_before_first a b [] e v = tt
    none_before_first a b (r ∷ rs) e v =
        (w.negatively_transitive r b a v.0 e, none_before_first a b rs e v.1)

    insert-IsSortedBy :
        (a : IpLocationRecord) (rs : List IpLocationRecord)
        → IsSortedBy less rs
        → IsSortedBy less (insert a rs)
    insert-IsSortedBy a [] v = (tt, tt)
    insert-IsSortedBy a (b ∷ bs) v = elim (Bool-cases (less b a)) [
      | inl e ↦
          rw e (none_before_insert b a bs (w.asymmetric b a e) v.0, insert-IsSortedBy a bs v.1)
      | inr e ↦ rw e ((e, none_before_first a b bs e v.0), v)
    ]

    pub sorted_by_insertion-IsSortedBy :
        (rs : List IpLocationRecord) → IsSortedBy less (sorted_by_insertion rs)
    sorted_by_insertion-IsSortedBy [] = tt
    sorted_by_insertion-IsSortedBy (a ∷ rest) =
        insert-IsSortedBy a (sorted_by_insertion rest) (sorted_by_insertion-IsSortedBy rest)

abbrev pub insertion : Sorting
insertion = record {
  sort = sorted_by_insertion;
  sort-Perm = λ less rs w. sorted_by_insertion-Perm less rs;
  sort-IsSortedBy = λ less rs w. sorted_by_insertion-IsSortedBy less w rs;
}
