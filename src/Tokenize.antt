-- ===== src/Tokenize.antt =====
-- src/common/Utilities/Tokenize.cpp: the parts of a text between separators. A character is its code; positions
-- do not overflow.
pub mod Pieces
pub mod Lacking
mod Runs
use warhead_discord_client.Common.{
  ℕ, zero, suc, ◌+◌, ◌-◌, Bool, true, false, ◌||◌, Option, none, some, List, [], ◌∷◌, ltb, ◌==◌,
  if◌then◌else◌, length, take, drop,
}

abbrev pub next_place : Option ℕ → Option ℕ
next_place none = none
next_place (some k) = some (suc k)

-- The first place of a character in a text.
abbrev pub find_in : ℕ → List ℕ → Option ℕ
find_in sep [] = none
find_in sep (x ∷ xs) = if x == sep then some 0 else next_place (find_in sep xs)

abbrev pub shifted : ℕ → Option ℕ → Option ℕ
shifted start none = none
shifted start (some k) = some (start + k)

-- `str.find(sep, start)`; `none` is `npos`.
abbrev pub find : List ℕ → ℕ → ℕ → Option ℕ
find str sep start = shifted start (find_in sep (drop start str))

-- `push_back` of a token that is not left out.
abbrev pub push_if : Bool → List ℕ → List (List ℕ) → List (List ℕ)
push_if keep token tokens = if keep then token ∷ tokens else tokens

-- What follows a search: the token before the separator and then the tokens behind it, or the last token.
abbrev pub on_end : Option ℕ → (ℕ → List (List ℕ)) → List ℕ → Bool → ℕ → List (List ℕ)
on_end none loop str keep_empty start =
    push_if (keep_empty || ltb start (length str)) (drop start str) []
on_end (some end) loop str keep_empty start =
    push_if (keep_empty || ltb start end) (take (end - start) (drop start str)) (loop (end + 1))

-- The loop from `start` on. Each round passes a character, so that one more round than there are
-- characters is enough.
unfoldable pub token_loop : ℕ → List ℕ → ℕ → Bool → ℕ → List (List ℕ)
token_loop zero str sep keep_empty start = []
token_loop (suc fuel) str sep keep_empty start =
    on_end (find str sep start) (token_loop fuel str sep keep_empty) str keep_empty start

unfoldable pub tokenize : List ℕ → ℕ → Bool → List (List ℕ)
unfolding token_loop
tokenize str sep keep_empty = token_loop (suc (length str)) str sep keep_empty 0
