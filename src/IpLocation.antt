-- ===== src/IpLocation.antt =====
-- src/common/IPLocation/IPLocation.cpp: the table of address ranges, the check that loading makes, and the
-- search. An address is a number below 2 ^ 32; reading it from text is not modelled.
pub mod Search
pub mod Lookup
pub mod Sorting
pub mod Loading
pub mod Written
mod Runs
use warhead_discord_client.Common.{
  ℕ, zero, suc, ◌+◌, ◌-◌, ◌/◌, Bool, true, false, not, ◌&&◌, Option, none, some, List, [], ◌∷◌, ltb,
  ◌==◌, if◌then◌else◌, length, get_elem?,
}

pub record IpLocationRecord : Type 0 where
  pub ip_from : ℕ
  pub ip_to : ℕ
  pub country_code : List ℕ
  pub country_name : List ℕ

-- The assertion of `Load` on the sorted table: `std::is_sorted` with a comparison of a record's start with
-- the end of the one before it.
unfoldable pub is_sorted : List IpLocationRecord → Bool
is_sorted [] = true
is_sorted (a ∷ []) = true
is_sorted (a ∷ b ∷ rest) = not (ltb b.ip_from a.ip_to) && is_sorted (b ∷ rest)

-- The comparison of the search: whether a record ends behind the address.
abbrev pub ends_after : ℕ → Option IpLocationRecord → Bool
ends_after ip none = true
ends_after ip (some r) = ltb ip r.ip_to

-- `std::upper_bound`: the search by halves among `len` records from the index `first` on, for the first
-- that passes the test. Half of the records are gone in each round, so `len` rounds are enough.
unfoldable pub upper_bound : ℕ → (ℕ → Bool) → ℕ → ℕ → ℕ
upper_bound zero test first len = first
upper_bound (suc fuel) test first len =
    let half = len / 2 in
    let lower = upper_bound fuel test first half in
    let upper = upper_bound fuel test (first + half + 1) (len - half - 1) in
    if len == 0 then first else if test (first + half) then lower else upper

abbrev pub containing : ℕ → Option IpLocationRecord → Option IpLocationRecord
containing ip none = none
containing ip (some r) = if ltb ip r.ip_from then none else some r

-- `GetLocationRecord` for an address: `none` is the null pointer.
unfoldable pub get_location_record : ℕ → List IpLocationRecord → Option IpLocationRecord
unfolding upper_bound
get_location_record ip store =
    let n = length store in
    containing ip (get_elem? store (upper_bound n (λ i. ends_after ip (get_elem? store i)) 0 n))
