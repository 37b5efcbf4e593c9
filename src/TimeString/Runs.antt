-- ===== src/TimeString/Runs.antt =====
-- Runs of the text of durations, and the theorem on it at one of them.
use warhead_discord_client.Common.{
  ℕ, ◌+◌, ◌≡◌, ◌≢◌, refl, Bool, true, false, some, List, [], ◌∷◌, map, take, arith, codes, ap,
}
use warhead_discord_client.Tokenize.Pieces.{joined}
use warhead_discord_client.TimeString.{
  TimeFormat, full_text, short_text, numeric, all_parts, to_time_string,
}
use warhead_discord_client.TimeString.Parts.{nonzero, total, units}
use warhead_discord_client.TimeString.Text.{part_text, to_time_string-joined}

abbrev digits : ℕ → List ℕ
digits n = (48 + n) ∷ []

abbrev two_digits : ℕ → List ℕ
two_digits n = 48 ∷ (48 + n) ∷ []

-- One day, two minutes and seven microseconds.
writes_short : to_time_string digits two_digits 86520000007 3 short_text ≡ some (codes "1d 2m 7us")
unfolding to_time_string
writes_short = refl

writes_full :
    to_time_string digits two_digits 86520000007 2 full_text ≡ some (codes "1 Day 2 Minutes")
unfolding to_time_string
writes_full = refl

writes_nothing : to_time_string digits two_digits 0 3 short_text ≡ some []
unfolding to_time_string
writes_nothing = refl

-- One hour and five seconds have the same digits as one minute and five seconds.
writes_hour : to_time_string digits two_digits 3605000000 3 numeric ≡ some (codes "1:05")
unfolding to_time_string
writes_hour = refl

writes_minute : to_time_string digits two_digits 65000000 3 numeric ≡ some (codes "1:05")
unfolding to_time_string
writes_minute = refl

abbrev is_numeric : TimeFormat → Bool
is_numeric full_text = false
is_numeric short_text = false
is_numeric numeric = true

short_text-other : short_text ≢ numeric
short_text-other e = absurd (let c : false ≡ true = ap is_numeric e in cc)

to_time_string-joined_example :
    (to_time_string digits two_digits 86520000007 3 short_text
      ≡ some (joined 32 (map (part_text short_text) (take 3 (nonzero (all_parts 86520000007))))))
    × (total units (all_parts 86520000007) ≡ 86520000007)
to_time_string-joined_example =
    to_time_string-joined digits two_digits 86520000007 3 short_text short_text-other (omega arith)
