-- ===== src/Tokenize/Runs.antt =====
-- The tokens of a text, and their theorem at it.
use warhead_discord_client.Common.{ℕ, ◌≡◌, refl, none, true, false, List, [], ◌∷◌, All}
use warhead_discord_client.Tokenize.{find_in, tokenize}
use warhead_discord_client.Tokenize.Pieces.{pieces, kept, joined, tokenize-pieces}

-- "a,,b"
abbrev text : List ℕ
text = 97 ∷ 44 ∷ 44 ∷ 98 ∷ []

three_tokens : tokenize text 44 true ≡ (97 ∷ []) ∷ [] ∷ (98 ∷ []) ∷ []
unfolding tokenize
three_tokens = refl

tokenize-pieces_example :
    (tokenize text 44 false ≡ kept false (pieces 44 text))
    × (joined 44 (pieces 44 text) ≡ text)
    × All (λ p. find_in 44 p ≡ none) (pieces 44 text)
tokenize-pieces_example = tokenize-pieces text 44 false
