-- ===== src/IpLocation/Written.antt =====
-- src/common/IPLocation/IPLocation.cpp: a table that is written as lines is read back.
use mathlib.Core.List.{Perm}
use warhead_discord_client.Common.{
  ℕ, zero, suc, ◌+◌, ◌^◌, ◌≤◌, ◌<◌, ◌≡◌, refl, sym, ap, ap₂, ◌∙◌, true, false, Option, none, some,
  List, [], ◌∷◌, ◌++◌, append_assoc, append-nil, Bool-cases, inl, inr, ◌==◌, arith, All, length,
  length-append, drop, map, codes, take-append_eq, drop-append_eq,
}
use warhead_discord_client.StringConvert.{to_lower, digit_of, to_chars, from_string, decimal}
use warhead_discord_client.StringConvert.Digits.{AreDigits, decimal-AreDigits}
use warhead_discord_client.StringConvert.RoundTrip.{from_string-to_chars}
use warhead_discord_client.Tokenize.Lacking.{Lacks, Lacks-append, find_in-append}
use warhead_discord_client.Config.{ConfigMgr, Stream, find_option, get_text_default}
use warhead_discord_client.IpLocation.{IpLocationRecord, is_sorted}
use warhead_discord_client.IpLocation.Sorting.{
  Sorting, starts_before, starts_before-IsStrictWeakOrder, IsAscending, IsSortedBy-IsAscending,
}
use warhead_discord_client.IpLocation.Loading.{
  get_field, up_to, without, Fields, get_fields, uint32, with_addresses, record_of, emplace_back,
  read_records, load, load_stream, checked,
}

-- A field in quotes, and the lines of a table.
abbrev pub quoted : List ℕ → List ℕ
quoted str = 34 ∷ (str ++ (34 ∷ []))

abbrev pub number : ℕ → List ℕ
number n = to_chars uint32 n

abbrev pub table_text : List IpLocationRecord → List ℕ
table_text [] = []
table_text (r ∷ rs) =
    quoted (number r.ip_from)
    ++ (44
        ∷ (quoted (number r.ip_to)
            ++ (44
                ∷ (quoted r.country_code
                    ++ (44 ∷ (quoted r.country_name ++ (10 ∷ table_text rs)))))))

-- Addresses of 32 bits, a code in lower case, and texts without the characters that have a meaning.
abbrev pub IsWritable : IpLocationRecord → Type 0
IsWritable r =
    (r.ip_from < 2 ^ 32)
    × (r.ip_to < 2 ^ 32)
    × (map to_lower r.country_code ≡ r.country_code)
    × Lacks 34 r.country_code
    × Lacks 44 r.country_code
    × Lacks 34 r.country_name
    × Lacks 10 r.country_name
    × Lacks 13 r.country_name

get_field-quoted :
    (sep : ℕ) (str rest : List ℕ)
    → Lacks sep (quoted str)
    → get_field false sep (some (quoted str ++ (sep ∷ rest))) ≡ some (quoted str, some rest)
unfolding get_field
get_field-quoted sep str rest v =
    let text = quoted str ++ (sep ∷ rest) in
    ap (λ o. up_to false o text) (find_in-append sep (quoted str) rest v)
    ∙ ap₂ (λ x y. some (x, some y))
        (take-append_eq (length (quoted str)) (quoted str) (sep ∷ rest) refl)
        (ap (drop (length (quoted str) + 1)) (sym (append_assoc (quoted str) (sep ∷ []) rest))
          ∙ drop-append_eq (length (quoted str) + 1) (quoted str ++ (sep ∷ [])) rest
              (omega (arith, length-append (quoted str) (sep ∷ []))))

without-Lacks : (x : ℕ) (str : List ℕ) → Lacks x str → without x str ≡ str
unfolding without
without-Lacks x [] v = refl
without-Lacks x (c ∷ cs) v = rw v.0 (ap (λ l. c ∷ l) (without-Lacks x cs v.1))

without-quoted : (str : List ℕ) → Lacks 34 str → without 34 (quoted str) ≡ str
unfolding without
without-quoted str v = go str v
  where
    go : (str : List ℕ) → Lacks 34 str → without 34 (str ++ (34 ∷ [])) ≡ str
    go [] v = refl
    go (c ∷ cs) v = rw v.0 (ap (λ l. c ∷ l) (go cs v.1))

digits-Lacks : (sep : ℕ) (str : List ℕ) → 10 ≤ digit_of sep → AreDigits 10 str → Lacks sep str
digits-Lacks sep [] h v = tt
digits-Lacks sep (c ∷ cs) h v = (other c v.0, digits-Lacks sep cs h v.1)
  where
    other : (c : ℕ) → digit_of c < 10 → (c == sep) ≡ false
    other c d = elim (Bool-cases (c == sep)) [
      | inl e ↦ let f : c ≡ sep = ground arith in absurd (omega (arith, ap digit_of f))
      | inr e ↦ e
    ]

number-Lacks : (sep n : ℕ) → 10 ≤ digit_of sep → Lacks sep (number n)
unfolding to_chars
number-Lacks sep n h = digits-Lacks sep (decimal 32 n) h (decimal-AreDigits 32 n)

quoted-Lacks :
    (sep : ℕ) (str : List ℕ) → (34 == sep) ≡ false → Lacks sep str → Lacks sep (quoted str)
quoted-Lacks sep str e v = (e, Lacks-append sep str (34 ∷ []) v (e, tt))

-- What is read of a line, and its record.
abbrev row : IpLocationRecord → Fields
row r = record {
  ip_from = quoted (number r.ip_from);
  ip_to = quoted (number r.ip_to);
  country_code = quoted r.country_code;
  country_name = quoted r.country_name;
}

get_fields-row :
    (r : IpLocationRecord) (rs : List IpLocationRecord)
    → IsWritable r
    → get_fields false (some (table_text (r ∷ rs))) ≡ some (row r, some (table_text rs))
unfolding get_fields
get_fields-row r rs (low, high, lower, v, w, x, y, z) =
    let name = quoted r.country_name ++ (10 ∷ table_text rs) in
    let code = quoted r.country_code ++ (44 ∷ name) in
    let to = quoted (number r.ip_to) ++ (44 ∷ code) in
    let n = number-Lacks 44 r.ip_from (omega arith) in
    let m = number-Lacks 44 r.ip_to (omega arith) in
    rw
      (
        get_field-quoted 44 (number r.ip_from) to (quoted-Lacks 44 (number r.ip_from) refl n),
        get_field-quoted 44 (number r.ip_to) code (quoted-Lacks 44 (number r.ip_to) refl m),
        get_field-quoted 44 r.country_code name (quoted-Lacks 44 r.country_code refl w),
        get_field-quoted 10 r.country_name (table_text rs) (quoted-Lacks 10 r.country_name refl y),
      )
      refl

record_of-row : (r : IpLocationRecord) → IsWritable r → record_of (row r) ≡ some r
unfolding record_of
record_of-row r (low, high, lower, v, w, x, y, z) =
    let number_read : (n : ℕ)
        → n < 2 ^ 32
        → from_string uint32 (without 34 (quoted (number n))) 10 ≡ some n =
      λ n h.
        ap (λ s. from_string uint32 s 10)
          (without-quoted (number n) (number-Lacks 34 n (omega arith)))
        ∙ from_string-to_chars uint32 n (omega arith, omega arith) h in
    let code : map to_lower (without 34 (quoted r.country_code)) ≡ r.country_code =
      ap (map to_lower) (without-quoted r.country_code v) ∙ lower in
    let name : without 34 (without 10 (without 13 (quoted r.country_name))) ≡ r.country_name =
      ap (λ s. without 34 (without 10 s))
        (without-Lacks 13 (quoted r.country_name) (quoted-Lacks 13 r.country_name refl z))
      ∙ ap (without 34)
          (without-Lacks 10 (quoted r.country_name) (quoted-Lacks 10 r.country_name refl y))
      ∙ without-quoted r.country_name x in
    ap₂
      (λ a b.
        with_addresses a b (map to_lower (without 34 (quoted r.country_code)))
          (without 34 (without 10 (without 13 (quoted r.country_name)))))
      (number_read r.ip_from low) (number_read r.ip_to high)
    ∙ ap₂
        (λ c n.
          some
            (record { ip_from = r.ip_from; ip_to = r.ip_to; country_code = c; country_name = n }))
        code name

nothing_read :
    (fuel : ℕ) (store : List IpLocationRecord)
    → read_records (suc fuel) false (some []) store ≡ store
unfolding read_records get_fields get_field
nothing_read fuel store = refl

read_records-table_text :
    (fuel : ℕ) (rs store : List IpLocationRecord)
    → length rs < fuel
    → All IsWritable rs
    → read_records fuel false (some (table_text rs)) store ≡ store ++ rs
unfolding read_records
read_records-table_text zero rs store h v = absurd (omega arith)
read_records-table_text (suc fuel) [] store h v = nothing_read fuel store ∙ sym (append-nil store)
read_records-table_text (suc fuel) (r ∷ rs) store h v =
    rw (get_fields-row r rs v.0, read_records)
      (ap (λ o. read_records fuel false (some (table_text rs)) (emplace_back o store))
          (record_of-row r v.0)
        ∙ read_records-table_text fuel rs (store ++ (r ∷ [])) (omega arith) v.1
        ∙ append_assoc store (r ∷ []) rs)

length-table_text : (rs : List IpLocationRecord) → length rs ≤ length (table_text rs)
length-table_text [] = omega arith
length-table_text (r ∷ rs) =
    let name = quoted r.country_name ++ (10 ∷ table_text rs) in
    let code = quoted r.country_code ++ (44 ∷ name) in
    let to = quoted (number r.ip_to) ++ (44 ∷ code) in
    omega (
      arith,
      length-append (quoted (number r.ip_from)) (44 ∷ to),
      length-append (quoted (number r.ip_to)) (44 ∷ code),
      length-append (quoted r.country_code) (44 ∷ name),
      length-append (quoted r.country_name) (10 ∷ table_text rs),
      length-table_text rs,
    )

-- What `Load` makes of records: all of them in the order of their first addresses, if the assertion holds
-- for the table, and else a failed assertion, for a table of them in that order.
abbrev pub Loads : List IpLocationRecord → Option (List IpLocationRecord) → Type 0
Loads rs none =
    (store : List IpLocationRecord) × Perm store rs × IsAscending store × (is_sorted store ≡ false)
Loads rs (some store) = Perm store rs × IsAscending store × (is_sorted store ≡ true)

checked-Loads :
    (open_file : List ℕ → Option Stream) (sorting : Sorting) (rs store : List IpLocationRecord)
    → Perm store rs
    → IsAscending store
    → Loads rs (checked open_file sorting store)
unfolding checked
checked-Loads open_file sorting rs store p a = elim (Bool-cases (is_sorted store)) [
  | inl e ↦ rw e (p, a, e)
  | inr e ↦ rw e (store, p, a, e)
]

-- `Load` of a file into which a table has been written, a line for each record with its four fields in
-- quotes. If it succeeds the table has the same records, each as often, in the order of their first
-- addresses, and they pass the assertion; else the assertion fails for the records in such an order,
-- whatever the sorting does with those of the same first address. The addresses have 32 bits, the
-- codes are in lower case, and the texts have no quotes, line's ends or, in the codes, commas.
pub load-table_text :
    (open_file : List ℕ → Option Stream) (sorting : Sorting) (m : ConfigMgr) (path : List ℕ)
    (rs : List IpLocationRecord)
    → find_option m.config_options (codes "IPLocationFile") ≡ some path
    → 0 < length path
    → open_file path ≡ some (record { content = table_text rs; breaks_off = false })
    → All IsWritable rs
    → Loads rs (load open_file sorting m)
unfolding load get_text_default load_stream
load-table_text open_file sorting m path rs e some_path opened v =
    let n : (length path == 0) ≡ false = ground arith in
    let k = length-table_text rs in
    let read = read_records-table_text (suc (length (table_text rs))) rs [] (omega arith) v in
    rw (e, n, opened, read)
      (checked-Loads open_file sorting rs (sorting.sort starts_before rs)
        (sorting.sort-Perm starts_before rs starts_before-IsStrictWeakOrder)
        (IsSortedBy-IsAscending (sorting.sort starts_before rs)
          (sorting.sort-IsSortedBy starts_before rs starts_before-IsStrictWeakOrder)))
