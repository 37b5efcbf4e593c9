-- ===== src/Timer/Countdown.antt =====
-- src/common/Utilities/Timer.h: what the timers measure.
use warhead_discord_client.Common.{
  ℕ, ◌+◌, ◌-◌, ◌%◌, ◌^◌, ◌≤◌, ◌<◌, ◌≡◌, refl, sym, ap, ◌∙◌, true, false, Option, none, some, arith,
  ltb, ◌==◌, if◌then◌else◌, dec_lt, lt→ltb, le→ltb,
}
use native.Mathlib.Nat.{mod-eq_of_lt, mod-lt}
use warhead_discord_client.Timer.{
  get_ms_time_diff, PeriodicTimer, periodic_update, t_update, t_passed, t_reset, IntervalTimer,
  interval_reset, interval_passed, greater, is_negative, signed_rem,
}

-- For a clock of 32 bits that has moved on by d milliseconds, d below 2 ^ 32, `getMSTimeDiff` gives d
-- while the clock has not wrapped, and one millisecond less when it has.
pub get_ms_time_diff_lem :
    (old d : ℕ)
    → old < 2 ^ 32
    → d < 2 ^ 32
    → get_ms_time_diff old ((old + d) % 2 ^ 32) ≡ (if ltb (old + d) (2 ^ 32) then d else d - 1)
unfolding get_ms_time_diff
get_ms_time_diff_lem old d ho hd = elim (dec_lt (old + d) (2 ^ 32)) [
  | yes h ↦ let e : (old + d) % 2 ^ 32 ≡ old + d = omega arith in ground arith
  | no h ↦ let e : (old + d) % 2 ^ 32 ≡ old + d - 2 ^ 32 = omega arith in ground arith
]

-- `PeriodicTimer::Update` is the tracker interface in one call: `TUpdate`, and then `TReset` with the
-- period if the timer has passed, which is what it returns.
periodic_update-t_update :
    (diff : ℕ) (t : PeriodicTimer)
    → periodic_update diff t ≡ (
        if t_passed (t_update diff t)
        then (true, t_reset diff t.period (t_update diff t))
        else (false, t_update diff t))
unfolding periodic_update t_update t_passed t_reset
periodic_update-t_update diff t = ground arith

module _ (a b : ℕ) (ha : a < 2 ^ 63) (hb : b < 2 ^ 63) where
  shift_a : (a + 2 ^ 63) % 2 ^ 64 ≡ a + 2 ^ 63
  shift_a = omega arith

  shift_b : (b + 2 ^ 63) % 2 ^ 64 ≡ b + 2 ^ 63
  shift_b = omega arith

  greater_yes : b < a → greater 64 a b ≡ true
  greater_yes h = lt→ltb _ _ (omega (arith, shift_a, shift_b))

  greater_no : a ≤ b → greater 64 a b ≡ false
  greater_no h = le→ltb _ _ (omega (arith, shift_a, shift_b))

not_negative : (n : ℕ) → n < 2 ^ 63 → is_negative 64 n ≡ false
not_negative n h = ground arith

signed_rem-mod : (a b : ℕ) → a < 2 ^ 63 → b < 2 ^ 63 → signed_rem 64 a b ≡ a % b
signed_rem-mod a b ha hb = ground (arith, not_negative a ha, not_negative b hb)

-- With an interval that is positive, `Reset` of an interval timer divides by no zero and leaves a
-- timer that has not passed, at the same point of the interval. Neither number is negative.
interval_reset_lem :
    (t : IntervalTimer)
    → 0 < t.interval
    → t.interval < 2 ^ 63
    → t.current < 2 ^ 63
    → (t' : IntervalTimer) × (interval_reset t ≡ some t')
      × (interval_passed t' ≡ false)
      × (t'.interval ≡ t.interval)
      × (t'.current ≡ t.current % t.interval)
unfolding interval_reset interval_passed
interval_reset_lem t p hi hc = elim (dec_lt t.current t.interval) [
  | yes h ↦ (
    t,
    rw (greater_yes t.interval t.current hi hc h),
    rw (greater_yes t.interval t.current hi hc h),
    refl,
    sym (mod-eq_of_lt h),
  )
  | no h ↦
      let below : t.current % t.interval < t.interval = mod-lt t.current p in
      (
        record t { current = t.current % t.interval },
        resets (omega arith),
        rw (greater_yes t.interval (t.current % t.interval) hi (omega (arith, below)) below),
        refl,
        refl,
      )
]
  where
    divided : Option IntervalTimer
    divided =
        if t.interval == 0
        then none
        else some (record t { current = signed_rem 64 t.current t.interval })

    nonzero : divided ≡ some (record t { current = signed_rem 64 t.current t.interval })
    nonzero = ground arith

    resets :
        t.interval ≤ t.current
        → interval_reset t ≡ some (record t { current = t.current % t.interval })
    resets h =
        let g = greater_no t.interval t.current hi hc h in
        let r = signed_rem-mod t.current t.interval hc hi in
        ap (λ b. if b then some t else divided) g
        ∙ nonzero
        ∙ ap (λ n. some (record t { current = n })) r
