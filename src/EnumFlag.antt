-- ===== src/EnumFlag.antt =====
-- src/common/EnumUtil/EnumFlag.h: flags in one number of w bits, the width of the underlying type.
pub mod Sets
mod Runs
use Prim.Native.Nat.{bit_and, bit_or}
use warhead_discord_client.Common.{ℕ, ◌-◌, ◌^◌, Bool, not, ◌==◌}

-- The operators of the enumeration.
unfoldable pub flag_and : ℕ → ℕ → ℕ
flag_and left right = bit_and left right

unfoldable pub flag_or : ℕ → ℕ → ℕ
flag_or left right = bit_or left right

unfoldable pub flag_not : ℕ → ℕ → ℕ
flag_not w value = 2 ^ w - 1 - value

-- The members of `EnumFlag`, which holds a value.
unfoldable pub remove_flag : ℕ → ℕ → ℕ → ℕ
unfolding flag_and flag_not
remove_flag w value flag = flag_and value (flag_not w flag)

unfoldable pub has_flag : ℕ → ℕ → Bool
unfolding flag_and
has_flag value flag = not (flag_and value flag == 0)

unfoldable pub has_all_flags : ℕ → ℕ → Bool
unfolding flag_and
has_all_flags value flags = flag_and value flags == flags
