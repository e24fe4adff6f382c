-- ===== src/Format/Duration.antt =====
-- resources/js/lib/format-duration.ts. A finite number of seconds is a whole number of milliseconds;
-- rounded to hundredths it is a number of hundredths. The `Intl` formatters are parameters.
use horizon_new_dawn.Base.{
  ℕ, ◌+◌, ◌-◌, ◌*◌, ◌/◌, String, ◌<>◌, Bool, ◌&&◌, List, [], ◌∷◌, ◌++◌, ltb, leb, if◌then◌else◌,
  ◌==◌, nat_eq, length,
}
use horizon_new_dawn.Base.Int.{ℤ, pos, negsuc}

pub data Seconds : Type 0 where
  finite : ℤ → Seconds
  infinite not_a_number : Seconds

pub data DurationFormat : Type 0 where
  approximate precise : DurationFormat

pub data Suffix : Type 0 where
  y mo d h m s ms : Suffix

pub data Formatter : Type 0 where
  number_formatter precise_number_formatter : Formatter

-- The arguments of `formatUnit`: the value in hundredths.
pub record Part : Type 0 where
  pub value : ℕ
  pub suffix : Suffix
  pub formatter : Formatter

unfoldable pub suffix_text : Suffix → String
suffix_text y = "y"
suffix_text mo = "mo"
suffix_text d = "d"
suffix_text h = "h"
suffix_text m = "m"
suffix_text s = "s"
suffix_text ms = "ms"

-- The length of the unit in seconds; milliseconds are never summed up.
abbrev pub unit_seconds : Suffix → ℕ
unit_seconds y = 31536000
unit_seconds mo = 2592000
unit_seconds d = 86400
unit_seconds h = 3600
unit_seconds m = 60
unit_seconds s = 1
unit_seconds ms = 0

abbrev pub precise_units : List Suffix
precise_units = y ∷ mo ∷ d ∷ h ∷ m ∷ s ∷ []

abbrev pub maximum_precise_parts : ℕ
maximum_precise_parts = 3

-- `normalizeDuration`, in milliseconds.
unfoldable pub normalize_duration : Seconds → ℕ
normalize_duration (finite (pos n)) = n
normalize_duration (finite (negsuc n)) = 0
normalize_duration infinite = 0
normalize_duration not_a_number = 0

-- `Math.round(a / b)`: a half is rounded up.
unfoldable pub round_div : ℕ → ℕ → ℕ
round_div a b = (2 * a + b) / (2 * b)

unfoldable pub round_to_hundredth : ℕ → ℕ
unfolding round_div
round_to_hundredth milliseconds = round_div milliseconds 10

abbrev pub rounded : ℕ → Suffix → Part
rounded duration suffix = record {
  value = 100 * round_div duration (100 * unit_seconds suffix);
  suffix = suffix;
  formatter = number_formatter;
}

abbrev pub one : Suffix → Part
one suffix = record { value = 100; suffix = suffix; formatter = number_formatter }

-- The ladder of `formatDuration`, over a duration in hundredths.
unfoldable pub format_approximate : ℕ → Part
format_approximate t =
    if leb t 500
    then record { value = t; suffix = s; formatter = precise_number_formatter }
    else if ltb t 6000
    then rounded t s
    else if ltb t 9000
    then one m
    else if ltb t 270000
    then rounded t m
    else if ltb t 540000
    then one h
    else if ltb t 7920000
    then rounded t h
    else if ltb t 12960000
    then one d
    else if ltb t 259200000
    then rounded t d
    else if ltb t 518400000
    then one mo
    else if ltb t 3153600000
    then rounded t mo
    else if ltb t 6307200000
    then one y
    else rounded t y

-- The value of a unit in what remains, in hundredths: the seconds keep their fraction.
abbrev pub value_of : Suffix → ℕ → ℕ
value_of s remaining = remaining
value_of suffix remaining = 100 * (remaining / (100 * unit_seconds suffix))

-- The loop of `formatPreciseDuration`: the parts so far, and what remains.
unfoldable pub precise_loop : List Suffix → List Part → ℕ → List Part × ℕ
precise_loop [] parts remaining = (parts, remaining)
precise_loop (unit ∷ units) parts remaining =
    let value = value_of unit remaining in
    let part : Part = record {
      value = value;
      suffix = unit;
      formatter = precise_number_formatter;
    } in
    let skipped = precise_loop units parts remaining in
    let pushed = precise_loop units (parts ++ part ∷ []) (remaining - value * unit_seconds unit) in
    if length parts == maximum_precise_parts
    then (parts, remaining)
    else if leb value 0
    then skipped
    else pushed

unfoldable pub precise_parts : ℕ → List Part
unfolding precise_loop
precise_parts duration = (precise_loop precise_units [] duration).0

module _ (format : Formatter → ℕ → String) where
  -- `formatUnit`
  unfoldable pub format_unit : Part → String
  unfolding suffix_text
  format_unit p = format p.formatter p.value <> suffix_text p.suffix

  unfoldable pub format_milliseconds : ℕ → String
  unfolding format_unit
  format_milliseconds milliseconds =
      format_unit
        (record { value = 100 * milliseconds; suffix = ms; formatter = precise_number_formatter })

  unfoldable pub join : List Part → String
  unfolding format_unit
  join [] = ""
  join (p ∷ []) = format_unit p
  join (p ∷ q ∷ ps) = format_unit p <> (" " <> join (q ∷ ps))

  unfoldable pub format_precise_duration : ℕ → String
  unfolding join precise_parts
  format_precise_duration duration = elim (precise_parts duration) [
    | [] ↦ "0s"
    | p ∷ ps ↦ join (p ∷ ps)
  ]

  abbrev pub below_a_second : ℕ → Bool
  below_a_second t = ltb 0 t && ltb t 1000

  by_format : DurationFormat → ℕ → String
  unfolding format_precise_duration format_unit format_approximate
  by_format precise duration = format_precise_duration duration
  by_format approximate duration = format_unit (format_approximate duration)

  unfoldable pub format_duration : Seconds → DurationFormat → String
  unfolding normalize_duration format_milliseconds round_to_hundredth by_format
  format_duration seconds format' =
      let normalized = normalize_duration seconds in
      if below_a_second normalized
      then format_milliseconds normalized
      else by_format format' (round_to_hundredth normalized)

  unfoldable pub format_raw_duration : Seconds → String
  unfolding normalize_duration format_milliseconds round_to_hundredth format_unit
  format_raw_duration seconds =
      let duration = normalize_duration seconds in
      if below_a_second duration
      then format_milliseconds duration
      else format_unit (record {
        value = round_to_hundredth duration;
        suffix = s;
        formatter = precise_number_formatter;
      })
