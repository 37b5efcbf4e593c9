-- ===== src/StringFormat/Runs.antt =====
-- Runs of the functions that cut off white space, and their theorem at one of them.
use warhead_discord_client.Common.{◌≡◌, refl, ◌↔◌, [], ◌∷◌}
use warhead_discord_client.StringFormat.{trim, trim_right_in_place}
use warhead_discord_client.StringFormat.Trimming.{Surrounds, trim-Surrounds}

-- " a b\t" and a text of white space.
trims : trim (32 ∷ 97 ∷ 32 ∷ 98 ∷ 9 ∷ []) ≡ 97 ∷ 32 ∷ 98 ∷ []
unfolding trim
trims = refl

trims_all : trim (32 ∷ 10 ∷ []) ≡ []
unfolding trim
trims_all = refl

trims_right : trim_right_in_place (32 ∷ 97 ∷ 32 ∷ []) ≡ 32 ∷ 97 ∷ []
unfolding trim_right_in_place
trims_right = refl

trim-Surrounds_example :
    (trim (32 ∷ 97 ∷ 32 ∷ 98 ∷ 9 ∷ []) ≡ 97 ∷ 32 ∷ 98 ∷ [])
    ↔ Surrounds (32 ∷ 97 ∷ 32 ∷ 98 ∷ 9 ∷ []) (97 ∷ 32 ∷ 98 ∷ [])
trim-Surrounds_example = trim-Surrounds (32 ∷ 97 ∷ 32 ∷ 98 ∷ 9 ∷ []) (97 ∷ 32 ∷ 98 ∷ [])
