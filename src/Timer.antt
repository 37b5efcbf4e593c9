-- ===== src/Timer.antt =====
-- src/common/Utilities/Timer.h: millisecond differences and the countdown timers. `uint32` values are
-- numbers below 2 ^ 32; `int32` and `time_t` values are their two's-complement patterns. Reading the
-- clock and the conversions to text are left out.
pub mod Countdown
mod Runs
use warhead_discord_client.Common.{
  ℕ, ◌+◌, ◌-◌, ◌*◌, ◌%◌, ◌^◌, Bool, true, false, Option, none, some, ltb, leb, ◌==◌, not, ◌&&◌,
  ◌||◌, if◌then◌else◌,
}

-- `getMSTimeDiff(uint32, uint32)`
unfoldable pub get_ms_time_diff : ℕ → ℕ → ℕ
get_ms_time_diff old_ms_time new_ms_time =
    if ltb new_ms_time old_ms_time
    then (0xFFFFFFFF - old_ms_time + new_ms_time) % 2 ^ 32
    else new_ms_time - old_ms_time

-- Patterns of w bits: their sign, and order.
abbrev pub is_negative : ℕ → ℕ → Bool
is_negative w n = leb (2 ^ (w - 1)) n

abbrev pub is_positive : ℕ → ℕ → Bool
is_positive w n = not (is_negative w n) && not (n == 0)

abbrev pub shifted : ℕ → ℕ → ℕ
shifted w n = (n + 2 ^ (w - 1)) % 2 ^ w

abbrev pub greater : ℕ → ℕ → ℕ → Bool
greater w a b = ltb (shifted w b) (shifted w a)

-- `PeriodicTimer`
pub record PeriodicTimer : Type 0 where
  pub period : ℕ
  pub expire_time : ℕ

abbrev pub w32 : ℕ
w32 = 2 ^ 32

-- `Update(uint32 diff)`
unfoldable pub periodic_update : ℕ → PeriodicTimer → Bool × PeriodicTimer
periodic_update diff t =
    let left = (t.expire_time + w32 - diff) % w32 in
    if is_positive 32 left then (false, record t { expire_time = left }) else (
      true,
      record t {
        expire_time = (left + (if greater 32 t.period diff then t.period else diff)) % w32;
      },
    )

unfoldable pub set_periodic : ℕ → ℕ → PeriodicTimer → PeriodicTimer
set_periodic period start_time t = record { period = period; expire_time = start_time }

-- `TUpdate`, `TPassed` and `TReset`
unfoldable pub t_update : ℕ → PeriodicTimer → PeriodicTimer
t_update diff t = record t { expire_time = (t.expire_time + w32 - diff) % w32 }

unfoldable pub t_passed : PeriodicTimer → Bool
t_passed t = not (is_positive 32 t.expire_time)

unfoldable pub t_reset : ℕ → ℕ → PeriodicTimer → PeriodicTimer
t_reset diff period t = record t {
  expire_time = (t.expire_time + (if greater 32 period diff then period else diff)) % w32;
}

-- `IntervalTimer`, with `time_t` of 64 bits.
pub record IntervalTimer : Type 0 where
  pub interval : ℕ
  pub current : ℕ

unfoldable pub interval_update : ℕ → IntervalTimer → IntervalTimer
interval_update diff t =
    let now = (t.current + diff) % 2 ^ 64 in
    record t { current = if is_negative 64 now then 0 else now }

unfoldable pub interval_passed : IntervalTimer → Bool
interval_passed t = not (greater 64 t.interval t.current)

-- The signed remainder, which takes the sign of the dividend.
abbrev pub magnitude : ℕ → ℕ → ℕ
magnitude w n = if is_negative w n then 2 ^ w - n else n

abbrev pub signed_rem : ℕ → ℕ → ℕ → ℕ
signed_rem w a b =
    let r = magnitude w a % magnitude w b in if is_negative w a then (2 ^ w - r) % 2 ^ w else r

-- `Reset`, where `none` is a division by zero.
unfoldable pub interval_reset : IntervalTimer → Option IntervalTimer
interval_reset t =
    if greater 64 t.interval t.current
    then some t
    else if t.interval == 0
    then none
    else some (record t { current = signed_rem 64 t.current t.interval })

-- `TimeTracker`, a `time_t` that is counted down.
unfoldable pub tracker_update : ℕ → ℕ → ℕ
tracker_update diff expiry_time = (expiry_time + 2 ^ 64 - diff) % 2 ^ 64

unfoldable pub tracker_passed : ℕ → Bool
tracker_passed expiry_time = not (is_positive 64 expiry_time)

-- `TimeTrackerSmall`, an `int32`.
unfoldable pub small_update : ℕ → ℕ → ℕ
small_update diff expiry_time = (expiry_time + w32 - diff) % w32

unfoldable pub small_passed : ℕ → Bool
small_passed expiry_time = not (is_positive 32 expiry_time)
