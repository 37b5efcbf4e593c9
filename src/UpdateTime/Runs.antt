-- ===== src/UpdateTime/Runs.antt =====
-- Concrete runs of the table of update times, and its theorem at a concrete input.
use warhead_discord_client.Common.{◌≡◌, refl, [], ◌∷◌, arith}
use warhead_discord_client.UpdateTime.{
  UpdateTime, of_size, initial, avg_diff_count, update_with_diff, time_weighted_average,
  last_update_time, max_of_current_table,
}
use warhead_discord_client.UpdateTime.Table.{TableIsValid, update_all, update_all-initial}

-- A table of two entries after three updates.
abbrev filled : UpdateTime
unfolding update_all update_with_diff of_size
filled = update_all (4 ∷ 10 ∷ 30 ∷ []) (of_size 2)

filled_average : filled.average_update_time ≡ 20
unfolding filled
filled_average = refl

filled_weighted : time_weighted_average filled ≡ 25
unfolding filled time_weighted_average
filled_weighted = refl

filled_last : last_update_time filled ≡ 30
unfolding filled last_update_time
filled_last = refl

filled_max : max_of_current_table filled ≡ 30
unfolding filled max_of_current_table
filled_max = refl

update_all-initial_example : TableIsValid avg_diff_count (update_all (4 ∷ 10 ∷ 30 ∷ []) initial)
update_all-initial_example =
    update_all-initial (4 ∷ 10 ∷ 30 ∷ []) (omega arith, (omega arith, (omega arith, tt)))
