-- ===== src/Config/Maps.antt =====
-- src/common/Configuration/Config.cpp: the maps of options, and what adding the options of a file makes of one.
use mathlib.Core.List.Permᴰ
use mathlib.Core.List.{Perm, Permᴰ}
use mathlib.Core.Logic.{∥∥₁_elim}
use warhead_discord_client.Common.{
  ℕ, ◌≡◌, ◌≢◌, refl, sym, ap, ap₂, ◌∙◌, subst, Bool, true, false, not, ◌&&◌, Bool-cases,
  Option-cases, inl, inr, Option, none, some, List, [], ◌∷◌, ◌==◌, if◌then◌else◌, arith,
}
use warhead_discord_client.Config.{
  ConfigOption, same_text, find_option, erase_option, is_logging_system_options, add_key, add_keys,
}

pub same_text-equal : (a b : List ℕ) → same_text a b ≡ true → a ≡ b
unfolding same_text
same_text-equal [] [] e = refl
same_text-equal [] (d ∷ ds) e = absurd (let c : false ≡ true = e in cc)
same_text-equal (c ∷ cs) [] e = absurd (let c : false ≡ true = e in cc)
same_text-equal (c ∷ cs) (d ∷ ds) e = elim (Bool-cases (c == d)) [
  | inl b ↦ ap₂ (λ x xs. x ∷ xs) (ground arith) (same_text-equal cs ds (rw b at e))
  | inr b ↦ absurd (let f : false ≡ true = rw b at e in cc)
]

pub same_text_refl : (a : List ℕ) → same_text a a ≡ true
unfolding same_text
same_text_refl [] = refl
same_text_refl (c ∷ cs) = let e : (c == c) ≡ true = ground arith in rw e (same_text_refl cs)

equal-same_text : (a b : List ℕ) → a ≡ b → same_text a b ≡ true
equal-same_text a b e = ap (same_text a) (sym e) ∙ same_text_refl a

pub differ-same_text : (a b : List ℕ) → a ≢ b → same_text a b ≡ false
differ-same_text a b n = elim (Bool-cases (same_text a b)) [
  | inl s ↦ absurd (n (same_text-equal a b s))
  | inr s ↦ s
]

pub find_option-if :
    (o : ConfigOption) (os : List ConfigOption) (name : List ℕ) {b : Bool}
    → same_text o.name name ≡ b
    → find_option (o ∷ os) name ≡ (if b then some o.value else find_option os name)
unfolding find_option
find_option-if o os name e = ap (λ b. if b then some o.value else find_option os name) e

pub find_option-nil : (name : List ℕ) → find_option [] name ≡ none
unfolding find_option
find_option-nil name = refl

pub find_option-erase_option :
    (os : List ConfigOption) (erased name : List ℕ)
    → same_text erased name ≡ false
    → find_option (erase_option os erased) name ≡ find_option os name
unfolding erase_option
find_option-erase_option [] erased name e = refl
find_option-erase_option (o ∷ os) erased name e = elim (Bool-cases (same_text o.name erased)) [
  | inl b ↦
      let other : same_text o.name name ≡ false =
        ap (λ t. same_text t name) (same_text-equal o.name erased b) ∙ e in
      rw b (find_option-erase_option os erased name e ∙ sym (find_option-if o os name other))
  | inr b ↦ rw b (elim (Bool-cases (same_text o.name name)) [
    | inl s ↦ find_option-if o (erase_option os erased) name s ∙ sym (find_option-if o os name s)
    | inr s ↦
        find_option-if o (erase_option os erased) name s
        ∙ find_option-erase_option os erased name e
        ∙ sym (find_option-if o os name s)
  ])
]

-- What a name stands for when a file has been added: `given` is its value in the file, `old` its value
-- before.
abbrev pub value_after : Bool → Bool → List ℕ → Option (List ℕ) → Option (List ℕ) → Option (List ℕ)
value_after is_optional is_reload name none old = old
value_after is_optional is_reload name (some v) none =
    if is_optional && not (is_logging_system_options name) && not is_reload then none else some v
value_after is_optional is_reload name (some v) (some w) = some v

find_option-choice :
    (b : Bool) (os ps : List ConfigOption) (name : List ℕ)
    → find_option (if b then os else ps) name
      ≡ (if b then find_option os name else find_option ps name)
find_option-choice true os ps name = refl
find_option-choice false os ps name = refl

same_choice : {x : Option (List ℕ)} (b : Bool) → (if b then x else x) ≡ x
same_choice true = refl
same_choice false = refl

present : (a b c : Bool) → (a && false && b && c) ≡ false
present true b c = refl
present false b c = refl

absent : (a b c : Bool) → (a && true && b && c) ≡ (a && b && c)
absent true b c = refl
absent false b c = refl

-- Adding an option changes its own name alone.
module _ (is_optional is_reload : Bool) (options : List ConfigOption) (o : ConfigOption) where
  abbrev logs : Bool
  logs = is_logging_system_options o.name

  add_key-missing :
      find_option options o.name ≡ none
      → add_key options o is_optional is_reload
        ≡ (if is_optional && not logs && not is_reload then options else o ∷ options)
  unfolding add_key
  add_key-missing e =
      rw e (
        ap (λ b. if b then options else o ∷ options)
          (absent is_optional (not logs) (not is_reload)))

  add_key-present :
      (v : List ℕ)
      → find_option options o.name ≡ some v
      → add_key options o is_optional is_reload ≡ o ∷ erase_option options o.name
  unfolding add_key
  add_key-present v e = rw e (
      ap (λ b. if b then options else o ∷ erase_option options o.name)
        (present is_optional (not logs) (not is_reload)))

  find_option-add_key-same :
      find_option (add_key options o is_optional is_reload) o.name
      ≡ value_after is_optional is_reload o.name (some o.value) (find_option options o.name)
  find_option-add_key-same = elim (Option-cases (find_option options o.name)) [
    | inl e ↦
        ap (λ os. find_option os o.name) (add_key-missing e)
        ∙ find_option-choice (is_optional && not logs && not is_reload) options (o ∷ options) o.name
        ∙ ap₂ (λ x y. if is_optional && not logs && not is_reload then x else y) e
            (find_option-if o options o.name (same_text_refl o.name))
        ∙ ap (value_after is_optional is_reload o.name (some o.value)) (sym e)
    | inr (v, e) ↦
        ap (λ os. find_option os o.name) (add_key-present v e)
        ∙ find_option-if o (erase_option options o.name) o.name (same_text_refl o.name)
        ∙ ap (value_after is_optional is_reload o.name (some o.value)) (sym e)
  ]

  find_option-add_key-other :
      (name : List ℕ)
      → same_text o.name name ≡ false
      → find_option (add_key options o is_optional is_reload) name ≡ find_option options name
  find_option-add_key-other name s = elim (Option-cases (find_option options o.name)) [
    | inl e ↦
        ap (λ os. find_option os name) (add_key-missing e)
        ∙ find_option-choice (is_optional && not logs && not is_reload) options (o ∷ options) name
        ∙ ap (λ y. if is_optional && not logs && not is_reload then find_option options name else y)
            (find_option-if o options name s)
        ∙ same_choice (is_optional && not logs && not is_reload)
    | inr (v, e) ↦
        ap (λ os. find_option os name) (add_key-present v e)
        ∙ find_option-if o (erase_option options o.name) name s
        ∙ find_option-erase_option options o.name name s
  ]

-- No name twice.
abbrev pub IsMap : List ConfigOption → Type 0
IsMap [] = Unit
IsMap (o ∷ os) = (find_option os o.name ≡ none) × IsMap os

pub find_option-add_keys :
    (is_optional is_reload : Bool) (options os : List ConfigOption) (name : List ℕ)
    → IsMap os
    → find_option (add_keys options os is_optional is_reload) name
      ≡ value_after is_optional is_reload name (find_option os name) (find_option options name)
unfolding add_keys
find_option-add_keys is_optional is_reload options [] name m = refl
find_option-add_keys is_optional is_reload options (o ∷ os) name m =
    let added = add_key options o is_optional is_reload in
    elim (Bool-cases (same_text o.name name)) [
      | inl s ↦
          let e = same_text-equal o.name name s in
          find_option-add_keys is_optional is_reload added os name m.1
          ∙ ap (λ given. value_after is_optional is_reload name given (find_option added name))
              (ap (find_option os) (sym e) ∙ m.0)
          ∙ subst
              (λ n.
                find_option added n
                ≡ value_after is_optional is_reload n (some o.value) (find_option options n))
              e (find_option-add_key-same is_optional is_reload options o)
          ∙ ap (λ given. value_after is_optional is_reload name given (find_option options name))
              (sym (find_option-if o os name s))
      | inr s ↦
          find_option-add_keys is_optional is_reload added os name m.1
          ∙ ap₂ (value_after is_optional is_reload name) (sym (find_option-if o os name s))
              (find_option-add_key-other is_optional is_reload options o name s)
    ]

both_find :
    (o : ConfigOption) (os ps : List ConfigOption) (name : List ℕ)
    → find_option os name ≡ find_option ps name
    → find_option (o ∷ os) name ≡ find_option (o ∷ ps) name
unfolding find_option
both_find o os ps name e = ap (λ v. if same_text o.name name then some o.value else v) e

apart :
    (o : ConfigOption) (os : List ConfigOption) (name : List ℕ)
    → find_option (o ∷ os) name ≡ none
    → same_text o.name name ≡ false
apart o os name e = elim (Bool-cases (same_text o.name name)) [
  | inl s ↦ absurd (let c : some o.value ≡ none = sym (find_option-if o os name s) ∙ e in cc)
  | inr s ↦ s
]

swapped_find :
    (a b : ConfigOption) (os : List ConfigOption) (name : List ℕ)
    → same_text a.name b.name ≡ false
    → find_option (a ∷ b ∷ os) name ≡ find_option (b ∷ a ∷ os) name
swapped_find a b os name n = elim (Bool-cases (same_text a.name name)) [
  | inl s ↦
      let other : same_text b.name name ≡ false = differ-same_text b.name name (λ h.
        let e = same_text-equal a.name name s ∙ sym h in
        absurd (let c : true ≡ false = sym (equal-same_text a.name b.name e) ∙ n in cc)) in
      find_option-if a (b ∷ os) name s
      ∙ sym (find_option-if a os name s)
      ∙ sym (find_option-if b (a ∷ os) name other)
  | inr s ↦
      find_option-if a (b ∷ os) name s
      ∙ both_find b os (a ∷ os) name (sym (find_option-if a os name s))
]

-- Reordering a map changes no value.
permuted :
    {os ps : List ConfigOption}
    → Permᴰ os ps
    → IsMap os
    → IsMap ps × ((name : List ℕ) → find_option os name ≡ find_option ps name)
permuted Permᴰ.nil m = (tt, λ name. refl)
permuted (Permᴰ.cons {a} {b} {l₁ = os} {l₂ = ps} e p) m =
    let (n, same) = permuted p m.1 in
    let name_same = ap (λ o. o.name) e in
    (
      (ap (find_option ps) (sym name_same) ∙ sym (same a.name) ∙ m.0, n),
      λ name. ap (λ o. find_option (o ∷ os) name) e ∙ both_find b os ps name (same name),
    )
permuted (Permᴰ.swap {a} {b} {l = os} e f) m =
    let differ : same_text b.name a.name ≡ false = apart b os a.name m.0 in
    let rest : find_option os a.name ≡ none = sym (find_option-if b os a.name differ) ∙ m.0 in
    let back : same_text a.name b.name ≡ false = differ-same_text a.name b.name (λ h.
      absurd (let c : true ≡ false = sym (equal-same_text b.name a.name (sym h)) ∙ differ in cc)) in
    subst (λ ps. IsMap ps × ((name : List ℕ) → find_option (a ∷ b ∷ os) name ≡ find_option ps name))
      (ap₂ (λ x y. x ∷ y ∷ os) f e)
      (
        (find_option-if a os b.name back ∙ m.1.0, (rest, m.1.1)),
        λ name. swapped_find a b os name back,
      )
permuted (Permᴰ.trans p q) m =
    let (n, same) = permuted p m in
    let (k, again) = permuted q n in (k, λ name. same name ∙ again name)

text_set : IsSet (Option (List ℕ))
text_set = hlevel

IsMap-prop : (os : List ConfigOption) → IsProp (IsMap os)
IsMap-prop [] = hlevel
IsMap-prop (o ∷ os) = let rest = IsMap-prop os in hlevel (text_set _ _, rest)

-- A map that is read in another order.
pub Perm-find_option :
    (os ps : List ConfigOption)
    → Perm ps os
    → IsMap os
    → IsMap ps × ((name : List ℕ) → find_option ps name ≡ find_option os name)
Perm-find_option os ps p m =
    let ordered : (d : Permᴰ ps os)
        → IsMap ps × ((name : List ℕ) → find_option ps name ≡ find_option os name) =
      λ d. let (n, same) = permuted (Permᴰ.symm d) m in (n, λ name. sym (same name)) in
    (
      ∥∥₁_elim p (IsMap-prop ps) (λ d. (ordered d).0),
      λ name. ∥∥₁_elim p (text_set _ _) (λ d. (ordered d).1 name),
    )
