-- ===== src/StringFormat/Trimming.antt =====
-- src/common/Utilities/StringFormat.cpp: what `Trim` cuts off and what it keeps.
use warhead_discord_client.Common.{
  ℕ, zero, suc, ◌+◌, ◌-◌, ◌<◌, ◌≡◌, refl, sym, ap, ap₂, ◌∙◌, true, false, Bool-cases, inl, inr, ◌↔◌,
  subst, List, [], ◌∷◌, ◌++◌, append_assoc, append-nil, ◌==◌, if◌then◌else◌, arith, All, length,
  take, drop, get_or, length-append, take-append_eq, drop-append_eq,
}
use warhead_discord_client.Util.{is_space}
use warhead_discord_client.StringFormat.{leading, kept_end, trim, trim_right_in_place}

abbrev pub IsBlank : List ℕ → Type 0
IsBlank str = All (λ c. is_space c ≡ true) str

-- A text that does not begin, or does not end, with white space.
abbrev pub BeginsBare : List ℕ → Type 0
BeginsBare [] = Unit
BeginsBare (c ∷ cs) = is_space c ≡ false

abbrev pub EndsBare : List ℕ → Type 0
EndsBare [] = Unit
EndsBare (c ∷ []) = is_space c ≡ false
EndsBare (c ∷ d ∷ cs) = EndsBare (d ∷ cs)

leading-blank :
    (before rest : List ℕ)
    → IsBlank before
    → leading (before ++ rest) ≡ length before + leading rest
unfolding leading
leading-blank [] rest v = omega arith
leading-blank (c ∷ cs) rest v = rw v.0 (omega (arith, leading-blank cs rest v.1))

leading-bare : (str : List ℕ) → BeginsBare str → leading str ≡ 0
unfolding leading
leading-bare [] v = refl
leading-bare (c ∷ cs) v = rw v refl

abbrev onto : ℕ → ℕ → ℕ
onto c zero = if is_space c then 0 else 1
onto c (suc k) = suc (suc k)

-- The place where the kept text ends, read from the front.
kept_end-cons : (c : ℕ) (cs : List ℕ) (n : ℕ) → kept_end (c ∷ cs) (suc n) ≡ onto c (kept_end cs n)
unfolding kept_end
kept_end-cons c cs zero = refl
kept_end-cons c cs (suc n) = elim (Bool-cases (is_space (get_or cs n 0))) [
  | inl b ↦ rw b (kept_end-cons c cs n)
  | inr b ↦ rw b refl
]

kept_end-blank : (str : List ℕ) → IsBlank str → kept_end str (length str) ≡ 0
unfolding kept_end
kept_end-blank [] v = refl
kept_end-blank (c ∷ cs) v =
    kept_end-cons c cs (length cs)
    ∙ ap (onto c) (kept_end-blank cs v.1)
    ∙ ap (λ b. if b then 0 else 1) v.0

kept_end-bare :
    (core after : List ℕ) (n : ℕ)
    → EndsBare core
    → IsBlank after
    → n ≡ length core + length after
    → kept_end (core ++ after) n ≡ length core
kept_end-bare [] after n v w e =
    ap (kept_end after) {y = length after} (omega arith) ∙ kept_end-blank after w
kept_end-bare (c ∷ cs) after zero v w e = absurd (omega arith)
kept_end-bare (c ∷ []) after (suc n) v w e =
    kept_end-cons c after n
    ∙ ap (onto c) (kept_end-bare [] after n tt w (omega arith))
    ∙ ap (λ b. if b then 0 else 1) v
kept_end-bare (c ∷ d ∷ cs) after (suc n) v w e =
    kept_end-cons c (d ∷ cs ++ after) n
    ∙ ap (onto c) (kept_end-bare (d ∷ cs) after n v w (omega arith))

kept_end-before :
    (before rest : List ℕ) (m n k : ℕ)
    → kept_end rest n ≡ suc k
    → m ≡ length before + n
    → kept_end (before ++ rest) m ≡ length before + suc k
kept_end-before [] rest m n k e f = ap (kept_end rest) {y = n} (omega arith) ∙ e ∙ omega arith
kept_end-before (c ∷ cs) rest zero n k e f = absurd (omega arith)
kept_end-before (c ∷ cs) rest (suc m) n k e f =
    kept_end-cons c (cs ++ rest) m
    ∙ ap (onto c) {y = suc (length cs + k)}
        (kept_end-before cs rest m n k e (omega arith) ∙ omega arith)
    ∙ omega arith

-- White space at the end is cut off.
pub trim_right_in_place-append :
    (core after : List ℕ)
    → EndsBare core
    → IsBlank after
    → trim_right_in_place (core ++ after) ≡ core
unfolding trim_right_in_place
trim_right_in_place-append core after v w =
    ap (λ n. take n (core ++ after))
      (kept_end-bare core after (length (core ++ after)) v w (length-append core after))
    ∙ take-append_eq (length core) core after refl

-- White space at both ends is cut off, and nothing else.
pub trim-append :
    (before core after : List ℕ)
    → IsBlank before
    → IsBlank after
    → BeginsBare core
    → EndsBare core
    → trim (before ++ (core ++ after)) ≡ core
unfolding trim
trim-append before [] after v w first last =
    let l : leading (before ++ after) ≡ length (before ++ after) =
      leading-blank before after v
      ∙ ap (λ n. length before + n)
          (ap leading (sym (append-nil after))
            ∙ leading-blank after [] w
            ∙ omega (arith, leading-bare [] tt))
      ∙ sym (length-append before after) in
    ap
      (λ b.
        if b
        then []
        else take
            (kept_end (before ++ after) (length (before ++ after)) - leading (before ++ after))
            (drop (leading (before ++ after)) (before ++ after)))
      (same (leading (before ++ after)) (length (before ++ after)) l)
  where
    same : (a b : ℕ) → a ≡ b → (a == b) ≡ true
    same a b e = ground arith
trim-append before (c ∷ cs) after v w first last =
    let s = before ++ (c ∷ cs ++ after) in
    let l : leading s ≡ length before =
      leading-blank before (c ∷ cs ++ after) v
      ∙ ap (λ n. length before + n) (leading-bare (c ∷ cs ++ after) first)
      ∙ omega arith in
    let whole = length-append before (c ∷ cs ++ after) in
    let inner = length-append (c ∷ cs) after in
    let k : kept_end s (length s) ≡ length before + suc (length cs) =
      kept_end-before before (c ∷ cs ++ after) (length s) (length (c ∷ cs ++ after)) (length cs)
        (kept_end-bare (c ∷ cs) after (length (c ∷ cs ++ after)) last w inner) whole in
    ap (λ b. if b then [] else take (kept_end s (length s) - leading s) (drop (leading s) s))
      (differ (leading s) (length s) (omega arith))
    ∙ ap₂ (λ n m. take (n - m) (drop m s)) k l
    ∙ ap₂ take {y = length (c ∷ cs)} (omega arith)
        (drop-append_eq (length before) before (c ∷ cs ++ after) refl)
    ∙ take-append_eq (length (c ∷ cs)) (c ∷ cs) after refl
  where
    differ : (a b : ℕ) → a < b → (a == b) ≡ false
    differ a b e = ground arith

-- A text is `core` with white space around it, and `core` begins and ends bare.
abbrev pub Surrounds : List ℕ → List ℕ → Type 0
Surrounds str core =
    (before : List ℕ) × (after : List ℕ) × (str ≡ before ++ (core ++ after))
    × IsBlank before
    × IsBlank after
    × BeginsBare core
    × EndsBare core

pub EndsBare-append :
    (xs : List ℕ) (c : ℕ) (cs : List ℕ) → EndsBare (c ∷ cs) → EndsBare (xs ++ (c ∷ cs))
EndsBare-append [] c cs v = v
EndsBare-append (x ∷ []) c cs v = v
EndsBare-append (x ∷ y ∷ xs) c cs v = EndsBare-append (y ∷ xs) c cs v

surrounded : (str : List ℕ) → (core : List ℕ) × Surrounds str core
surrounded [] = ([], ([], [], refl, tt, tt, tt, tt))
surrounded (c ∷ cs) = elim (Bool-cases (is_space c)) [
  | inl b ↦
      let (core, (before, after, e, v, w, first, last)) = surrounded cs in
      (core, (c ∷ before, after, ap (λ l. c ∷ l) e, (b, v), w, first, last))
  | inr b ↦
      let (core, (before, after, e, v, w, first, last)) = surrounded cs in
      bare b before core after e v w last
]
  where
    bare :
        (is_space c ≡ false)
        → (before core after : List ℕ) → cs ≡ before ++ (core ++ after)
        → IsBlank before
        → IsBlank after
        → EndsBare core
        → (core : List ℕ) × Surrounds (c ∷ cs) core
    bare b before [] after e v w last =
        (c ∷ [], ([], cs, refl, tt, subst IsBlank (sym e) (both before v), b, b))
      where
        both : (before : List ℕ) → IsBlank before → IsBlank (before ++ after)
        both [] v = w
        both (x ∷ xs) v = (v.0, both xs v.1)
    bare b before (d ∷ ds) after e v w last = (
      c ∷ (before ++ (d ∷ ds)),
      (
        [],
        after,
        ap (λ l. c ∷ l) (e ∙ sym (append_assoc before (d ∷ ds) after)),
        tt,
        w,
        b,
        EndsBare-append (c ∷ before) d ds last,
      ),
    )

-- `Trim` gives the text without the white space around it, and only that: the text is white space, the
-- result and white space, the result neither begins nor ends with white space, and the result is the
-- only such part.
pub trim-Surrounds : (str core : List ℕ) → (trim str ≡ core) ↔ Surrounds str core
trim-Surrounds str core = (
  λ e.
      let (found, (before, after, p, v, w, first, last)) = surrounded str in
      subst (Surrounds str) (sym (ap trim p ∙ trim-append before found after v w first last) ∙ e)
        (before, after, p, v, w, first, last),
  λ (before, after, p, v, w, first, last). ap trim p ∙ trim-append before core after v w first last,
)
