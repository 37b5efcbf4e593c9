-- ===== src/Tokenize/Lacking.antt =====
-- src/common/Utilities/Tokenize.cpp: texts in which a separator is missing.
use warhead_discord_client.Common.{
  ℕ, ◌≡◌, refl, ap, true, false, none, some, List, [], ◌∷◌, ◌++◌, ◌==◌, arith, All, length,
}
use warhead_discord_client.Tokenize.{find_in, next_place}
use warhead_discord_client.Tokenize.Pieces.{pieces, onto_first}

abbrev pub Lacks : ℕ → List ℕ → Type 0
Lacks sep str = All (λ c. (c == sep) ≡ false) str

pub Lacks-append : (sep : ℕ) (xs ys : List ℕ) → Lacks sep xs → Lacks sep ys → Lacks sep (xs ++ ys)
Lacks-append sep [] ys v w = w
Lacks-append sep (x ∷ xs) ys v w = (v.0, Lacks-append sep xs ys v.1 w)

pub Lacks-find_in : (sep : ℕ) (xs : List ℕ) → Lacks sep xs → find_in sep xs ≡ none
Lacks-find_in sep [] v = refl
Lacks-find_in sep (x ∷ xs) v = rw v.0 (ap next_place (Lacks-find_in sep xs v.1))

pub find_in-append :
    (sep : ℕ) (xs ys : List ℕ) → Lacks sep xs → find_in sep (xs ++ (sep ∷ ys)) ≡ some (length xs)
find_in-append sep [] ys v = let e : (sep == sep) ≡ true = ground arith in rw e refl
find_in-append sep (x ∷ xs) ys v = rw v.0 (ap next_place (find_in-append sep xs ys v.1))

pub pieces-append :
    (sep : ℕ) (xs ys : List ℕ) → Lacks sep xs → pieces sep (xs ++ (sep ∷ ys)) ≡ xs ∷ pieces sep ys
pieces-append sep [] ys v = let e : (sep == sep) ≡ true = ground arith in rw e refl
pieces-append sep (x ∷ xs) ys v = rw v.0 (ap (onto_first x) (pieces-append sep xs ys v.1))
