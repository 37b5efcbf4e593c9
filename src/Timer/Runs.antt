-- ===== src/Timer/Runs.antt =====
-- Concrete runs of the timers, and their theorems at concrete inputs.
use warhead_discord_client.Common.{◌+◌, ◌-◌, ◌%◌, ◌^◌, ◌≡◌, refl, true, arith, ltb, if◌then◌else◌}
use warhead_discord_client.Timer.{get_ms_time_diff, PeriodicTimer, periodic_update, IntervalTimer}
use warhead_discord_client.Timer.Countdown.{get_ms_time_diff_lem}

-- The clock went from 4294967290 on to 4 in ten milliseconds; nine are measured.
get_ms_time_diff_lem_example :
    get_ms_time_diff 4294967290 ((4294967290 + 10) % 2 ^ 32)
    ≡ (if ltb (4294967290 + 10) (2 ^ 32) then 10 else 10 - 1)
get_ms_time_diff_lem_example = get_ms_time_diff_lem 4294967290 10 (omega arith) (omega arith)

abbrev ticking : PeriodicTimer
ticking = record { period = 50; expire_time = 20 }

ticking_passes : periodic_update 30 ticking ≡ (true, record { period = 50; expire_time = 40 })
unfolding periodic_update
ticking_passes = refl

abbrev late : IntervalTimer
late = record { interval = 100; current = 250 }
