-- ===== src/Batches/Options.antt =====
-- `batchFilterOptions` of resources/js/pages/batches/index.tsx. The comparison of `localeCompare` is a parameter.
use horizon_new_dawn.Base.{
  String, Bool, false, not, ◌&&◌, ◌||◌, ◌≡◌, refl, ap, ◌∙◌, Option, none, some, List, [], ◌∷◌, ◌++◌,
  arith, if◌then◌else◌, ◌==◌, string_eq, contains, remove, keep, contains-remove, Distinct, ==_refl,
}
use horizon_new_dawn.Base.Int.{ℤ}
use horizon_new_dawn.Sorting.Rows.{insert_row, sort_by}

-- `Array.from(new Set(values))`: each value once, where it comes first.
unfoldable pub distinct : List String → List String
unfolding remove
distinct [] = []
distinct (x ∷ xs) = x ∷ remove x (distinct xs)

abbrev pub with_active : List String → Option String → List String
with_active values none = values
with_active values (some active) = values ++ (active ∷ [])

abbrev pub is_named : String → Bool
is_named value = not (value == "")

unfoldable pub batch_filter_options :
    (String → String → ℤ) → List String → Option String → List String
unfolding distinct keep sort_by
batch_filter_options locale_compare values active =
    sort_by locale_compare (distinct (keep is_named (with_active values active)))

contains-distinct : (xs : List String) (y : String) → contains (distinct xs) y ≡ contains xs y
unfolding distinct contains
contains-distinct [] y = refl
contains-distinct (x ∷ xs) y =
    ground (arith, contains-remove x y (distinct xs), contains-distinct xs y)

contains-keep :
    (xs : List String) (y : String) → contains (keep is_named xs) y ≡ contains xs y && is_named y
unfolding keep contains
contains-keep [] y = refl
contains-keep (x ∷ xs) y = ground (arith, contains-keep xs y)

module _ (compare : String → String → ℤ) where
  contains-insert_row :
      (x : String) (ys : List String) (y : String)
      → contains (insert_row compare x ys) y ≡ (x == y) || contains ys y
  unfolding insert_row contains
  contains-insert_row x [] y = refl
  contains-insert_row x (z ∷ ys) y = ground (arith, contains-insert_row x ys y)

  contains-sort_by :
      (xs : List String) (y : String) → contains (sort_by compare xs) y ≡ contains xs y
  unfolding sort_by contains
  contains-sort_by [] y = refl
  contains-sort_by (x ∷ xs) y =
      contains-insert_row x (sort_by compare xs) y ∙ ap (λ b. (x == y) || b) (contains-sort_by xs y)

  Distinct-insert_row :
      (x : String) (ys : List String)
      → contains ys x ≡ false
      → Distinct ys
      → Distinct (insert_row compare x ys)
  unfolding insert_row contains
  Distinct-insert_row x [] absent d = (refl, tt)
  Distinct-insert_row x (z ∷ ys) absent d =
      ground (arith, Distinct-insert_row x ys, contains-insert_row x ys z, d)

  Distinct-sort_by : (xs : List String) → Distinct xs → Distinct (sort_by compare xs)
  unfolding sort_by
  Distinct-sort_by [] d = tt
  Distinct-sort_by (x ∷ xs) (absent, d) =
      Distinct-insert_row x (sort_by compare xs) (contains-sort_by xs x ∙ absent)
        (Distinct-sort_by xs d)

Distinct-remove : (x : String) (xs : List String) → Distinct xs → Distinct (remove x xs)
unfolding remove contains
Distinct-remove x [] d = tt
Distinct-remove x (y ∷ ys) (absent, d) =
    ground (arith, Distinct-remove x ys d, contains-remove x y ys, absent)

distinct-Distinct : (xs : List String) → Distinct (distinct xs)
unfolding distinct contains
distinct-Distinct [] = tt
distinct-Distinct (x ∷ xs) = (
  contains-remove x x (distinct xs)
      ∙ ap (λ b. if b then false else contains (distinct xs) x) (==_refl x),
  Distinct-remove x (distinct xs) (distinct-Distinct xs),
)

-- In any order of texts, the options are the catalogue's values and the active one, without the empty text, and
-- each of them once.
pub batch_filter_options_lem :
    (locale_compare : String → String → ℤ) (values : List String) (active : Option String)
    → Distinct (batch_filter_options locale_compare values active)
      × ((value : String)
          → contains (batch_filter_options locale_compare values active) value
            ≡ contains (with_active values active) value && not (value == ""))
unfolding batch_filter_options
batch_filter_options_lem locale_compare values active =
    let named = keep is_named (with_active values active) in
    (
      Distinct-sort_by locale_compare (distinct named) (distinct-Distinct named),
      λ value.
          contains-sort_by locale_compare (distinct named) value
          ∙ (contains-distinct named value ∙ contains-keep (with_active values active) value),
    )
