-- ===== src/StringFormat.antt =====
-- src/common/Utilities/StringFormat.cpp: white space cut off at the ends of a text, in the classic locale.
-- A character is its code; the length of a text is below 2 ^ 31.
pub mod Trimming
mod Runs
use warhead_discord_client.Common.{
  ℕ, zero, suc, ◌+◌, ◌-◌, Bool, true, false, List, [], ◌∷◌, ◌==◌, if◌then◌else◌, length, take, drop,
  get_or,
}
use warhead_discord_client.Util.{is_space}

-- The first loop of `Trim`: the number of characters that `first` passes.
unfoldable pub leading : List ℕ → ℕ
leading [] = 0
leading (c ∷ cs) = let n = leading cs in if is_space c then suc n else 0

-- The other loops, which go back from a place: where the text that is kept ends.
unfoldable pub kept_end : List ℕ → ℕ → ℕ
kept_end str zero = 0
kept_end str (suc pos) =
    let before = kept_end str pos in if is_space (get_or str pos 0) then before else suc pos

unfoldable pub trim : List ℕ → List ℕ
unfolding leading kept_end
trim s =
    let first = leading s in
    if first == length s then [] else take (kept_end s (length s) - first) (drop first s)

unfoldable pub trim_right_in_place : List ℕ → List ℕ
unfolding kept_end
trim_right_in_place str = take (kept_end str (length str)) str
