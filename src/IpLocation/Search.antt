-- ===== src/IpLocation/Search.antt =====
-- src/common/IPLocation/IPLocation.cpp: the search by halves finds the first index that passes the test.
use warhead_discord_client.Common.{
  ℕ, zero, suc, ◌+◌, ◌-◌, ◌/◌, ◌≤◌, ◌<◌, ◌≡◌, sym, ◌∙◌, Bool, true, false, Bool-cases, inl, inr,
  if◌then◌else◌, arith, ℕ_discrete, dec_lt,
}
use warhead_discord_client.IpLocation.{upper_bound}

-- k is the first index from `first` on, before `end`, that passes the test, or `end`.
pub record IsFirst (test : ℕ → Bool) (first end k : ℕ) : Type 0 where
  pub from : first ≤ k
  pub within : k ≤ end
  pub fail : (i : ℕ) → first ≤ i → i < k → test i ≡ false
  pub pass : (i : ℕ) → k ≤ i → i < end → test i ≡ true

upper_bound-steps :
    (fuel : ℕ) (test : ℕ → Bool) (first len : ℕ)
    → 0 < len
    → upper_bound (suc fuel) test first len ≡ (
        if test (first + len / 2)
        then upper_bound fuel test first (len / 2)
        else upper_bound fuel test (first + len / 2 + 1) (len - len / 2 - 1))
unfolding upper_bound
upper_bound-steps fuel test first len h = ground arith

upper_bound-empty :
    (fuel : ℕ) (test : ℕ → Bool) (first len : ℕ)
    → len ≡ 0
    → upper_bound (suc fuel) test first len ≡ first
unfolding upper_bound
upper_bound-empty fuel test first len e = ground arith

-- A test that once passed passes for all later indices.
pub upper_bound-IsFirst :
    (fuel : ℕ) (test : ℕ → Bool) (first len : ℕ)
    → len ≤ fuel
    → ((i j : ℕ) → i ≤ j → j < first + len → test i ≡ true → test j ≡ true)
    → IsFirst test first (first + len) (upper_bound fuel test first len)
upper_bound-IsFirst zero test first len h grows =
    unfold upper_bound in
    record {
      from = omega arith;
      within = omega arith;
      fail = λ i l g. absurd (omega arith);
      pass = λ i l g. absurd (omega arith);
    }
upper_bound-IsFirst (suc fuel) test first len h grows = elim (ℕ_discrete len 0) [
  | yes e ↦ rw (upper_bound-empty fuel test first len e) (record {
    from = omega arith;
    within = omega arith;
    fail = λ i l g. absurd (omega arith);
    pass = λ i l g. absurd (omega arith);
  })
  | no n ↦ elim (Bool-cases (test (first + len / 2))) [
    | inl t ↦
        let lower =
          upper_bound-IsFirst fuel test first (len / 2) (omega arith)
            (λ i j l g s. grows i j l (omega arith) s) in
        rw (upper_bound-steps fuel test first len (omega arith)) (
          rw t (record {
            from = lower.from;
            within = omega (arith, lower.within);
            fail = lower.fail;
            pass = λ i l g. elim (dec_lt i (first + len / 2)) [
              | yes b ↦ lower.pass i l b
              | no b ↦ grows (first + len / 2) i (omega arith) g t
            ];
          }))
    | inr t ↦
        let upper =
          upper_bound-IsFirst fuel test (first + len / 2 + 1) (len - len / 2 - 1) (omega arith)
            (λ i j l g s. grows i j l (omega arith) s) in
        rw (upper_bound-steps fuel test first len (omega arith)) (
          rw t (record {
            from = omega (arith, upper.from);
            within = omega (arith, upper.within);
            fail = λ i l g. elim (dec_lt (first + len / 2) i) [
              | yes b ↦ upper.fail i (omega arith) g
              | no b ↦ elim (Bool-cases (test i)) [
                | inl s ↦ absurd (
                    let c : true ≡ false =
                      sym (grows i (first + len / 2) (omega arith) (omega arith) s) ∙ t in
                    cc)
                | inr s ↦ s
              ]
            ];
            pass = λ i l g. upper.pass i l (omega arith);
          }))
  ]
]
