-- ===== src/Tests/Tables.antt =====
-- Rows of numbers and nulls (resources/js/hooks/use-sortable-rows.ts).

use horizon_new_dawn.Base.{
  ◌≡◌, refl, Option, none, some, List, [], ◌∷◌, ◌==◌, string_eq, find, keep, if◌then◌else◌, arith,
}
use horizon_new_dawn.Base.Int.{ℤ, pos, negsuc}
use horizon_new_dawn.Sorting.Rows.{
  asc, desc, number, null, SortColumn, SortState, Texts, is_zero, sort_rows, compare_values,
}
use horizon_new_dawn.Sorting.Uniform.{numbers, Has}
use horizon_new_dawn.Sorting.Order.{IsSorted}
use horizon_new_dawn.Sorting.Result.{by_column, sort_rows-IsSorted_stable}

abbrev jobs_column : SortColumn (Option ℤ)
jobs_column = record { key = "jobs"; value = λ row. elim row [ none ↦ null | some n ↦ number n ] }

abbrev plain_texts : Texts
plain_texts = record { compare = λ s t. if s == t then pos 0 else pos 1; show = λ n. "" }

abbrev rows : List (Option ℤ)
rows = some (pos 2) ∷ none ∷ some (negsuc 0) ∷ []

abbrev by_jobs : SortState
by_jobs = record { key = "jobs"; direction = desc }

jobs_column_found :
    find (λ (candidate : SortColumn (Option ℤ)). candidate.key == "jobs") (jobs_column ∷ [])
    ≡ some jobs_column
unfolding find string_eq
jobs_column_found = refl

jobs-Has : (row : Option ℤ) → Has numbers (jobs_column.value row)
jobs-Has none = tt
jobs-Has (some n) = tt

sort_rows-IsSorted_stable_example :
    let c = by_column plain_texts jobs_column desc in
    let sorted = sort_rows plain_texts rows (jobs_column ∷ []) (some by_jobs) in
    IsSorted c sorted
    × (keep (λ x. is_zero (c none x)) sorted ≡ keep (λ x. is_zero (c none x)) rows)
sort_rows-IsSorted_stable_example =
    sort_rows-IsSorted_stable plain_texts numbers rows (jobs_column ∷ []) by_jobs jobs_column none
      jobs_column_found tt jobs-Has

nulls-IsSorted : IsSorted (by_column plain_texts jobs_column asc) (none ∷ none ∷ [])
unfolding compare_values
nulls-IsSorted = ((omega arith, tt), (tt, tt))
