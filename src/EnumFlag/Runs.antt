-- ===== src/EnumFlag/Runs.antt =====
-- Runs of the operations on flags, and their theorem at two values.
use warhead_discord_client.Common.{ℕ, ◌-◌, min, max, ◌≡◌, ◌↔◌, refl, true, false, arith}
use warhead_discord_client.EnumFlag.{flag_and, flag_or, remove_flag, has_flag, has_all_flags}
use warhead_discord_client.EnumFlag.Sets.{bit, Meets, Includes, flags-AreSets}

removes : remove_flag 8 13 6 ≡ 9
unfolding remove_flag
removes = refl

has_some : has_flag 13 6 ≡ true
unfolding has_flag
has_some = refl

has_not_all : has_all_flags 13 6 ≡ false
unfolding has_all_flags
has_not_all = refl

flags-AreSets_example :
    ((i : ℕ) → bit i (flag_and 13 6) ≡ min (bit i 13) (bit i 6))
    × ((i : ℕ) → bit i (flag_or 13 6) ≡ max (bit i 13) (bit i 6))
    × ((i : ℕ) → bit i (remove_flag 8 13 6) ≡ bit i 13 - bit i 6)
    × ((has_flag 13 6 ≡ true) ↔ Meets 13 6)
    × ((has_all_flags 13 6 ≡ true) ↔ Includes 13 6)
flags-AreSets_example = flags-AreSets 8 13 6 (omega arith) (omega arith)
