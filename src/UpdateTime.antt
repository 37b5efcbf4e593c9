-- ===== src/UpdateTime.antt =====
-- src/client/Time/UpdateTime.h and UpdateTime.cpp: the table of the last update times and what is
-- kept about it. All members are `uint32`. Logging and the configuration are left out.
pub mod Table
mod Runs
use warhead_discord_client.Common.{
  ℕ, suc, ◌+◌, ◌-◌, ◌*◌, ◌/◌, ◌%◌, ◌^◌, max, Bool, List, [], ◌∷◌, length, replicate, get_or, set,
  ltb, leb, ◌==◌, not, if◌then◌else◌,
}
use warhead_discord_client.Timer.{get_ms_time_diff}

-- `AVG_DIFF_COUNT`
abbrev pub avg_diff_count : ℕ
avg_diff_count = 500

pub record UpdateTime : Type 0 where
  pub update_time_data_table : List ℕ
  pub average_update_time : ℕ
  pub total_update_time : ℕ
  pub update_time_table_index : ℕ
  pub max_update_time : ℕ
  pub max_update_time_of_last_table : ℕ
  pub max_update_time_of_current_table : ℕ
  pub recorded_time : ℕ

-- The constructor, for a table of n entries.
unfoldable pub of_size : ℕ → UpdateTime
of_size n = record {
  update_time_data_table = replicate n 0;
  average_update_time = 0;
  total_update_time = 0;
  update_time_table_index = 0;
  max_update_time = 0;
  max_update_time_of_last_table = 0;
  max_update_time_of_current_table = 0;
  recorded_time = 0;
}

unfoldable pub initial : UpdateTime
unfolding of_size
initial = of_size avg_diff_count

-- The two sums of `GetTimeWeightedAverageUpdateTime`, in 32 bits.
unfoldable pub weighted_sums : List ℕ → ℕ × ℕ → ℕ × ℕ
weighted_sums [] s = s
weighted_sums (diff ∷ ds) s = weighted_sums ds ((s.0 + diff * diff) % 2 ^ 32, (s.1 + diff) % 2 ^ 32)

unfoldable pub time_weighted_average : UpdateTime → ℕ
unfolding weighted_sums
time_weighted_average u =
    let (sum, weightsum) = weighted_sums u.update_time_data_table (0, 0) in
    if weightsum == 0 then 0 else sum / weightsum

unfoldable pub max_of_current_table : UpdateTime → ℕ
max_of_current_table u = max u.max_update_time_of_current_table u.max_update_time_of_last_table

unfoldable pub last_update_time : UpdateTime → ℕ
last_update_time u =
    let i = u.update_time_table_index in
    get_or u.update_time_data_table
      (if not (i == 0) then i - 1 else length u.update_time_data_table - 1) 0

-- The statements of `UpdateWithDiff`, one after the other.
abbrev pub put_diff : ℕ → UpdateTime → UpdateTime
put_diff diff u =
    let old = get_or u.update_time_data_table u.update_time_table_index 0 in
    record u {
      total_update_time = (u.total_update_time + 2 ^ 32 - old + diff) % 2 ^ 32;
      update_time_data_table = set u.update_time_data_table u.update_time_table_index diff;
    }

abbrev pub raise_max : ℕ → UpdateTime → UpdateTime
raise_max diff u = record u {
  max_update_time = if ltb u.max_update_time diff then diff else u.max_update_time;
  max_update_time_of_current_table =
      if ltb u.max_update_time_of_current_table diff
      then diff
      else u.max_update_time_of_current_table;
}

abbrev pub next_index : UpdateTime → UpdateTime
next_index u =
    if leb (length u.update_time_data_table) (u.update_time_table_index + 1)
    then record u {
      update_time_table_index = 0;
      max_update_time_of_last_table = u.max_update_time_of_current_table;
      max_update_time_of_current_table = 0;
    }
    else record u { update_time_table_index = u.update_time_table_index + 1 }

abbrev pub new_average : UpdateTime → UpdateTime
new_average u =
    if not (get_or u.update_time_data_table (length u.update_time_data_table - 1) 0 == 0)
    then record u { average_update_time = u.total_update_time / length u.update_time_data_table }
    else if not (u.update_time_table_index == 0)
    then record u { average_update_time = u.total_update_time / u.update_time_table_index }
    else u

unfoldable pub update_with_diff : ℕ → UpdateTime → UpdateTime
update_with_diff diff u = new_average (next_index (raise_max diff (put_diff diff u)))

unfoldable pub record_update_time_reset : ℕ → UpdateTime → UpdateTime
record_update_time_reset now u = record u { recorded_time = now }

-- `_RecordUpdateTimeDuration` at the time `now`: whether the duration is logged, and the new state.
unfoldable pub record_update_time_duration : ℕ → ℕ → UpdateTime → Bool × UpdateTime
record_update_time_duration now min_update_time u =
    (ltb min_update_time (get_ms_time_diff u.recorded_time now), record u { recorded_time = now })
