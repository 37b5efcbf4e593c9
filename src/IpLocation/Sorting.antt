-- ===== src/IpLocation/Sorting.antt =====
-- src/common/IPLocation/IPLocation.cpp: the comparison by which `Load` sorts, and what it relies on of `std::sort`.
pub mod Insertion
use mathlib.Core.List.{Perm}
use warhead_discord_client.Common.{◌≤◌, ◌≡◌, Bool, true, false, List, [], ◌∷◌, ltb, arith, All}
use warhead_discord_client.IpLocation.{IpLocationRecord}

-- The comparison: whether a range starts before another.
abbrev pub starts_before : IpLocationRecord → IpLocationRecord → Bool
starts_before a b = ltb a.ip_from b.ip_from

-- A strict weak order, as `std::sort` requires.
pub record IsStrictWeakOrder (less : IpLocationRecord → IpLocationRecord → Bool) : Type 0 where
  pub asymmetric : (a b : IpLocationRecord) → less a b ≡ true → less b a ≡ false
  pub negatively_transitive :
      (a b c : IpLocationRecord) → less a b ≡ false → less b c ≡ false → less a c ≡ false

-- No record is less than one before it.
abbrev pub IsSortedBy :
    (IpLocationRecord → IpLocationRecord → Bool) → List IpLocationRecord → Type 0
IsSortedBy less [] = Unit {0}
IsSortedBy less (a ∷ rest) = All (λ b. less b a ≡ false) rest × IsSortedBy less rest

-- `std::sort` with a comparison: it puts the same records in order. Those of which none is less than the other may
-- come in any order.
pub record Sorting : Type 0 where
  pub sort :
      (IpLocationRecord → IpLocationRecord → Bool) → List IpLocationRecord → List IpLocationRecord
  pub sort-Perm :
      (less : IpLocationRecord → IpLocationRecord → Bool) (rs : List IpLocationRecord)
      → IsStrictWeakOrder less
      → Perm (sort less rs) rs
  pub sort-IsSortedBy :
      (less : IpLocationRecord → IpLocationRecord → Bool) (rs : List IpLocationRecord)
      → IsStrictWeakOrder less
      → IsSortedBy less (sort less rs)

pub starts_before-IsStrictWeakOrder : IsStrictWeakOrder starts_before
starts_before-IsStrictWeakOrder = record {
  asymmetric = λ a b e. ground arith;
  negatively_transitive = λ a b c e f. ground arith;
}

-- Records in the order of their first addresses.
abbrev pub IsAscending : List IpLocationRecord → Type 0
IsAscending [] = Unit {0}
IsAscending (a ∷ rest) = All (λ b. a.ip_from ≤ b.ip_from) rest × IsAscending rest

none_before :
    (a : IpLocationRecord) (rest : List IpLocationRecord)
    → All (λ b. starts_before b a ≡ false) rest
    → All (λ b. a.ip_from ≤ b.ip_from) rest
none_before a [] v = tt
none_before a (b ∷ rest) v = (let e = v.0 in ground arith, none_before a rest v.1)

pub IsSortedBy-IsAscending :
    (store : List IpLocationRecord) → IsSortedBy starts_before store → IsAscending store
IsSortedBy-IsAscending [] v = tt
IsSortedBy-IsAscending (a ∷ rest) v = (none_before a rest v.0, IsSortedBy-IsAscending rest v.1)
