-- ===== src/IpLocation/Loading.antt =====
-- src/common/IPLocation/IPLocation.cpp: `Load`. The file system and the sorting of the standard library, which may
-- order records with the same start in any way, are parameters.
use warhead_discord_client.Common.{
  ℕ, zero, suc, ◌+◌, Bool, false, Option, none, some, List, [], ◌∷◌, ◌++◌, ◌==◌, if◌then◌else◌,
  length, take, drop, map, codes,
}
use warhead_discord_client.StringConvert.{Integral, to_lower, from_string}
use warhead_discord_client.Tokenize.{find_in}
use warhead_discord_client.Config.{ConfigMgr, Stream, get_text_default}
use warhead_discord_client.IpLocation.{IpLocationRecord, is_sorted}
use warhead_discord_client.IpLocation.Sorting.{Sorting, starts_before}

-- What is left of a file: `none` when its end has been reached.
abbrev pub Rest : Type 0
Rest = Option (List ℕ)

-- `std::getline` up to a character: the text and what is left, or a failure.
abbrev pub up_to : Bool → Option ℕ → List ℕ → Option (List ℕ × Rest)
up_to breaks_off none text = if breaks_off then none else some (text, none)
up_to breaks_off (some k) text = some (take k text, some (drop (k + 1) text))

unfoldable pub get_field : Bool → ℕ → Rest → Option (List ℕ × Rest)
get_field breaks_off sep none = none
get_field breaks_off sep (some []) = none
get_field breaks_off sep (some (c ∷ cs)) = up_to breaks_off (find_in sep (c ∷ cs)) (c ∷ cs)

-- `erase` of what `std::remove` has found.
unfoldable pub without : ℕ → List ℕ → List ℕ
without x [] = []
without x (c ∷ cs) = let rest = without x cs in if c == x then rest else c ∷ rest

-- The four fields of a line.
pub record Fields : Type 0 where
  pub ip_from : List ℕ
  pub ip_to : List ℕ
  pub country_code : List ℕ
  pub country_name : List ℕ

abbrev pub then_read : {A B : Type 0} → Option A → (A → Option B) → Option B
then_read none f = none
then_read (some a) f = f a

-- The reading of a line; `none` leaves the loop.
unfoldable pub get_fields : Bool → Rest → Option (Fields × Rest)
unfolding get_field
get_fields breaks_off rest = then_read (get_field breaks_off 44 rest) (λ (from, rest).
    then_read (get_field breaks_off 44 rest) (λ (to, rest).
      then_read (get_field breaks_off 44 rest) (λ (code, rest).
        then_read (get_field breaks_off 10 rest) (λ (name, rest). some (
          record { ip_from = from; ip_to = to; country_code = code; country_name = name },
          rest,
        )))))

abbrev pub uint32 : Integral
uint32 = record { bits = 32; is_signed = false }

-- The record of a line, if both addresses are numbers.
abbrev pub with_addresses : Option ℕ → Option ℕ → List ℕ → List ℕ → Option IpLocationRecord
with_addresses none to code name = none
with_addresses (some from) none code name = none
with_addresses (some from) (some to) code name =
    some (record { ip_from = from; ip_to = to; country_code = code; country_name = name })

unfoldable pub record_of : Fields → Option IpLocationRecord
unfolding without from_string
record_of f =
    with_addresses (from_string uint32 (without 34 f.ip_from) 10)
      (from_string uint32 (without 34 f.ip_to) 10) (map to_lower (without 34 f.country_code))
      (without 34 (without 10 (without 13 f.country_name)))

abbrev pub emplace_back : Option IpLocationRecord → List IpLocationRecord → List IpLocationRecord
emplace_back none store = store
emplace_back (some r) store = store ++ (r ∷ [])

-- The loop. A round passes a character, so that one more round than there are characters is enough.
unfoldable pub read_records : ℕ → Bool → Rest → List IpLocationRecord → List IpLocationRecord
unfolding get_fields record_of
read_records zero breaks_off rest store = store
read_records (suc fuel) breaks_off rest store = elim (get_fields breaks_off rest) [
  | none ↦ store
  | some (f, next) ↦ read_records fuel breaks_off next (emplace_back (record_of f) store)
]

module _ (open_file : List ℕ → Option Stream) (sorting : Sorting) where
  -- The assertion on the sorted table; `none` is its failure.
  unfoldable pub checked : List IpLocationRecord → Option (List IpLocationRecord)
  unfolding is_sorted
  checked store = if is_sorted store then some store else none

  unfoldable pub load_stream : Option Stream → Option (List IpLocationRecord)
  unfolding read_records checked
  load_stream none = some []
  load_stream (some input) = checked (
      sorting.sort starts_before
        (read_records (suc (length input.content)) input.breaks_off (some input.content) []))

  -- `Load`: the table, or the failed assertion.
  unfoldable pub load : ConfigMgr → Option (List IpLocationRecord)
  unfolding load_stream get_text_default
  load m =
      let path = get_text_default m (codes "IPLocationFile") [] in
      if length path == 0 then some [] else load_stream (open_file path)
