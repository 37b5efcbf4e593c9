-- ===== src/TimeString.antt =====
-- src/common/Utilities/Timer.cpp: a duration as text. The duration is the 64-bit pattern of a signed number of
-- microseconds. What the third-party library prints for "{}" and for "{:02}" is a parameter. The
-- assertion in `ToString` may fail, which is `none`.
pub mod Parts
pub mod Text
mod Runs
use warhead_discord_client.Common.{
  ℕ, zero, suc, ◌+◌, ◌-◌, ◌*◌, ◌/◌, ◌%◌, ◌^◌, Bool, true, false, Option, none, some, List, [], ◌∷◌,
  ◌++◌, ltb, leb, ◌==◌, if◌then◌else◌, length, take, codes,
}
use warhead_discord_client.StringConvert.{Integral, to_string}
use warhead_discord_client.StringFormat.{trim_right_in_place}

pub data TimeFormat : Type 0 where
  full_text : TimeFormat
  short_text : TimeFormat
  numeric : TimeFormat

-- The three texts that follow a number.
pub record Words : Type 0 where
  pub short : List ℕ
  pub full_one : List ℕ
  pub full : List ℕ

pub record Part : Type 0 where
  pub time : ℕ
  pub words : Words

-- `durationTime.count() % 1000`, which is a signed remainder.
abbrev pub microsecs : ℕ → ℕ
microsecs count =
    if ltb count (2 ^ 63) then count % 1000 else (2 ^ 64 - (2 ^ 64 - count) % 1000) % 2 ^ 64

-- The numbers of the days and so on, with their words.
abbrev pub all_parts : ℕ → List Part
all_parts count =
    record {
      time = count / 86400000000;
      words = record { short = codes "d "; full_one = codes " Day "; full = codes " Days " };
    }
    ∷ record {
      time = count / 3600000000 % 24;
      words = record { short = codes "h "; full_one = codes " Hour "; full = codes " Hours " };
    }
    ∷ record {
      time = count / 60000000 % 60;
      words = record { short = codes "m "; full_one = codes " Minute "; full = codes " Minutes " };
    }
    ∷ record {
      time = count / 1000000 % 60;
      words = record { short = codes "s "; full_one = codes " Second "; full = codes " Seconds " };
    }
    ∷ record {
      time = count / 1000 % 1000;
      words = record {
        short = codes "ms ";
        full_one = codes " Millisecond ";
        full = codes " Milliseconds ";
      };
    }
    ∷ record {
      time = microsecs count;
      words = record {
        short = codes "us ";
        full_one = codes " Microsecond ";
        full = codes " Microseconds ";
      };
    }
    ∷ []

-- The variables that the lambdas capture.
pub record Out : Type 0 where
  pub text : List ℕ
  pub count : ℕ
  pub is_first : Bool

abbrev pub uint32 : Integral
uint32 = record { bits = 32; is_signed = false }

abbrev pub word : TimeFormat → ℕ → Words → List ℕ
word full_text time w = if time == 1 then w.full_one else w.full
word short_text time w = w.short
word numeric time w = codes "<Unknown time format>"

abbrev pub appended : Option (List ℕ) → List ℕ → Out → Option Out
appended none w o = none
appended (some number) w o =
    some (record o { text = o.text ++ (number ++ w); count = (o.count + 1) % 2 ^ 8 })

-- `AddOut`, of which the number is a `uint32`.
unfoldable pub add_out : TimeFormat → ℕ → Part → Out → Option Out
unfolding to_string
add_out format out_count p o =
    let time = p.time % 2 ^ 32 in
    let next = appended (to_string uint32 time) (word format time p.words) o in
    if leb out_count o.count then some o else next

abbrev pub then_add : Option Out → (Out → Option Out) → Option Out
then_add none f = none
then_add (some o) f = f o

-- The calls of `AddOut` for the numbers that are not zero.
unfoldable pub add_outs : TimeFormat → ℕ → List Part → Out → Option Out
unfolding add_out
add_outs format out_count [] o = some o
add_outs format out_count (p ∷ ps) o =
    then_add (if p.time == 0 then some o else add_out format out_count p o)
      (add_outs format out_count ps)

abbrev pub trimmed : Option Out → Option (List ℕ)
unfolding trim_right_in_place
trimmed none = none
trimmed (some o) = some (trim_right_in_place o.text)

-- Without the last character, if there is one.
abbrev pub without_last : List ℕ → List ℕ
without_last text = take (length text - 1) text

abbrev pub no_out : Out
no_out = record { text = []; count = 0; is_first = false }

module _ (plain padded : ℕ → List ℕ) where
  -- `AddOutNumerlic`.
  unfoldable pub add_out_numeric : ℕ → ℕ → Out → Out
  add_out_numeric out_count time o = if leb out_count o.count then o else record {
    text = o.text ++ ((if o.is_first then padded time else plain time) ++ codes ":");
    count = (o.count + 1) % 2 ^ 8;
    is_first = true;
  }

  unfoldable pub add_outs_numeric : ℕ → List Part → Out → Out
  unfolding add_out_numeric
  add_outs_numeric out_count [] o = o
  add_outs_numeric out_count (p ∷ ps) o =
      add_outs_numeric out_count ps (if p.time == 0 then o else add_out_numeric out_count p.time o)

  unfoldable pub to_time_string : ℕ → ℕ → TimeFormat → Option (List ℕ)
  unfolding add_outs add_outs_numeric trimmed
  to_time_string count out_count numeric =
      some (without_last (add_outs_numeric out_count (all_parts count) no_out).text)
  to_time_string count out_count full_text =
      trimmed (add_outs full_text out_count (all_parts count) no_out)
  to_time_string count out_count short_text =
      trimmed (add_outs short_text out_count (all_parts count) no_out)
