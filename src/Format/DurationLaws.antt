-- ===== src/Format/DurationLaws.antt =====
-- How exact the shown durations are (resources/js/lib/format-duration.ts).
use horizon_new_dawn.Base.{
  ℕ, zero, suc, ◌+◌, ◌-◌, ◌*◌, ◌/◌, ◌≤◌, ◌<◌, true, false, ◌≡◌, inl, inr, List, [], ◌∷◌, ◌++◌,
  arith, leb, ◌==◌, nat_eq, ==-cases, length, length-append, by_test,
}
use horizon_new_dawn.Format.Duration.{
  Part, Suffix, y, mo, d, h, m, s, ms, unit_seconds, value_of, precise_loop, maximum_precise_parts,
  precise_number_formatter, precise_parts, precise_units,
}

-- What the parts say, in hundredths of a second.
abbrev pub total : List Part → ℕ
total [] = 0
total (p ∷ ps) = p.value * unit_seconds p.suffix + total ps

abbrev pub shown : Part → ℕ
shown p = p.value * unit_seconds p.suffix

abbrev pub Close : ℕ → Part → Type 0
Close t p = let unit = 100 * unit_seconds p.suffix in (shown p < t + unit) × (t < shown p + unit)

total-append : (ps qs : List Part) → total (ps ++ qs) ≡ total ps + total qs
total-append [] qs = omega arith
total-append (p ∷ ps) qs = omega (arith, total-append ps qs)

div_mul_le : (a b : ℕ) → a / b * b ≤ a
div_mul_le a zero = omega arith
div_mul_le a (suc b) = omega arith

value_within :
    (unit : Suffix) (remaining : ℕ) → value_of unit remaining * unit_seconds unit ≤ remaining
value_within y remaining = omega arith
value_within mo remaining = omega arith
value_within d remaining = omega arith
value_within h remaining = omega arith
value_within m remaining = omega arith
value_within s remaining = omega arith
value_within ms remaining = omega arith

room : (n : ℕ) → n ≤ 3 → n == 3 ≡ false → n < 3
room n le ne = elim (==-cases n 3) [
  | inl (eq, same) ↦ grind arith
  | inr (eq, different) ↦ omega (arith, le, different)
]

abbrev Kept : ℕ → List Part × ℕ → Type 0
Kept duration (parts, remaining) = (total parts + remaining ≡ duration) × (length parts ≤ 3)

precise_loop-Kept :
    (duration : ℕ) (units : List Suffix) (parts : List Part) (remaining : ℕ)
    → Kept duration (parts, remaining)
    → Kept duration (precise_loop units parts remaining)
unfolding precise_loop
precise_loop-Kept duration [] parts remaining kept = kept
precise_loop-Kept duration (unit ∷ units) parts remaining kept =
    let value = value_of unit remaining in
    let part : Part = record {
      value = value;
      suffix = unit;
      formatter = precise_number_formatter;
    } in
    by_test (Kept duration) (length parts == maximum_precise_parts) (λ e. kept)
      λ e.
        by_test (Kept duration) (leb value 0)
          (λ e'. precise_loop-Kept duration units parts remaining kept)
          λ e'.
            precise_loop-Kept duration units (parts ++ part ∷ [])
              (remaining - value * unit_seconds unit)
              (
                omega (arith, kept, total-append parts (part ∷ []), value_within unit remaining),
                omega (arith, length-append parts (part ∷ []), room (length parts) (kept.1) e),
              )

full : (n : ℕ) → n == 3 ≡ true → n ≡ 3
full n eq = elim (==-cases n 3) [
  | inl (_, same) ↦ same
  | inr (other, _) ↦ ground (arith, eq, other)
]

leb→le : (a b : ℕ) → leb a b ≡ true → a ≤ b
leb→le a b eq = ground arith

Exact : List Part × ℕ → Type 0
Exact (parts, remaining) = length parts < 3 → remaining ≡ 0

precise_loop-Exact :
    (units : List Suffix) (parts : List Part) (remaining : ℕ)
    → Exact (precise_loop (units ++ s ∷ []) parts remaining)
unfolding precise_loop Exact
precise_loop-Exact [] parts remaining =
    by_test Exact (length parts == maximum_precise_parts)
      (λ e fewer. omega (arith, full (length parts) e, fewer))
      λ e.
        by_test Exact (leb remaining 0) (λ e' fewer. omega (arith, leb→le remaining 0 e'))
          λ e' fewer. omega arith
precise_loop-Exact (unit ∷ units) parts remaining =
    let value = value_of unit remaining in
    let part : Part = record {
      value = value;
      suffix = unit;
      formatter = precise_number_formatter;
    } in
    by_test Exact (length parts == maximum_precise_parts)
      (λ e fewer. omega (arith, full (length parts) e, fewer))
      λ e.
        by_test Exact (leb value 0) (λ e'. precise_loop-Exact units parts remaining)
          λ e'.
            precise_loop-Exact units (parts ++ part ∷ []) (remaining - value * unit_seconds unit)

-- A precise duration shows at most three parts, and they add up to at most the duration.
pub precise_parts_lem :
    (duration : ℕ)
    → (total (precise_parts duration) ≤ duration) × (length (precise_parts duration) ≤ 3)
unfolding precise_parts
precise_parts_lem duration =
    let kept = precise_loop-Kept duration precise_units [] duration (omega arith, omega arith) in
    (omega (arith, kept), kept.1)

-- A precise duration with fewer than three parts shows all of the duration, to the hundredth of a second.
pub precise_parts_exact :
    (duration : ℕ) → length (precise_parts duration) < 3 → total (precise_parts duration) ≡ duration
unfolding precise_parts Exact
precise_parts_exact duration fewer =
    let kept = precise_loop-Kept duration precise_units [] duration (omega arith, omega arith) in
    let exact = precise_loop-Exact (y ∷ mo ∷ d ∷ h ∷ m ∷ []) [] duration in
    omega (arith, kept, exact fewer)
