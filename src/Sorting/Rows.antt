-- ===== src/Sorting/Rows.antt =====
-- resources/js/hooks/use-sortable-rows.ts. The collator of strings and the text of a number are parameters.
-- `Array.prototype.sort` is the insertion of each element behind those that do not compare greater. Of a
-- comparison only its sign counts.
use horizon_new_dawn.Base.{
  ℕ, zero, suc, String, ◌<>◌, Bool, true, false, ◌&&◌, Option, none, some, List, [], ◌∷◌, map,
  if◌then◌else◌, ◌==◌, string_eq, find, any,
}
use horizon_new_dawn.Base.Int.{ℤ, pos, negsuc, ◌-ℤ◌, neg, leb_ℤ}

pub data SortDirection : Type 0 where
  asc desc : SortDirection

-- A finite number is the integer of its units of 2^-1074, of which every number of the language is a multiple;
-- a difference, rounded or too large, has the sign of the exact one. The other number that the columns yield is
-- -Infinity.
pub data SortValue : Type 0 where
  text : String → SortValue
  number : ℤ → SortValue
  negative_infinity null : SortValue

pub record SortColumn {ℓ} (T : Type ℓ) : Type ℓ where
  pub key : String
  pub value : T → SortValue

pub record SortState : Type 0 where
  pub key : String
  pub direction : SortDirection

-- `Intl.Collator.prototype.compare` and `String(number)`.
pub record Texts : Type 0 where
  pub compare : String → String → ℤ
  pub show : ℤ → String

abbrev pub is_asc : SortDirection → Bool
is_asc asc = true
is_asc desc = false

abbrev pub toggled : SortDirection → SortDirection
toggled asc = desc
toggled desc = asc

abbrev pub directed : SortDirection → ℤ → ℤ
directed asc c = c
directed desc c = neg c

module _ (texts : Texts) where
  -- `String(value)` of a value that is not null.
  abbrev pub as_text : SortValue → String
  as_text (text s) = s
  as_text (number n) = texts.show n
  as_text negative_infinity = "-Infinity"
  as_text null = "null"

  -- The difference of two infinities is NaN, which the sort takes for 0.
  unfoldable pub comparison : SortValue → SortValue → ℤ
  comparison (number m) (number n) = m -ℤ n
  comparison (number m) negative_infinity = pos 1
  comparison negative_infinity (number n) = negsuc 0
  comparison negative_infinity negative_infinity = pos 0
  comparison left right = texts.compare (as_text left) (as_text right)

  unfoldable pub compare_values : SortValue → SortValue → SortDirection → ℤ
  unfolding comparison
  compare_values null null direction = pos 0
  compare_values null right direction = pos 1
  compare_values left null direction = negsuc 0
  compare_values left right direction = directed direction (comparison left right)

abbrev pub is_zero : ℤ → Bool
is_zero (pos zero) = true
is_zero _ = false

module _ {ℓ} {T : Type ℓ} where
  -- `rows.map((row, index) => ({ row, index }))`
  unfoldable pub with_index : ℕ → List T → List (T × ℕ)
  with_index i [] = []
  with_index i (row ∷ rows) = (row, i) ∷ with_index (suc i) rows

  module _ (compare : T → T → ℤ) where
    unfoldable pub insert_row : T → List T → List T
    insert_row x [] = x ∷ []
    insert_row x (y ∷ ys) =
        let rest = insert_row x ys in if leb_ℤ (compare x y) (pos 0) then x ∷ y ∷ ys else y ∷ rest

    unfoldable pub sort_by : List T → List T
    unfolding insert_row
    sort_by [] = []
    sort_by (x ∷ xs) = insert_row x (sort_by xs)

module _ {ℓ} {T : Type ℓ} (texts : Texts) where
  -- The comparison that `sortRows` sorts by.
  unfoldable pub compare_indexed : SortColumn T → SortDirection → T × ℕ → T × ℕ → ℤ
  compare_indexed column direction (left, i) (right, j) =
      let c = compare_values texts (column.value left) (column.value right) direction in
      if is_zero c then pos i -ℤ pos j else c

  unfoldable pub sort_column : SortColumn T → SortDirection → List T → List T
  unfolding sort_by with_index compare_indexed
  sort_column column direction rows =
      map (λ (entry : T × ℕ). entry.0)
        (sort_by (compare_indexed column direction) (with_index 0 rows))

  unfoldable pub sort_rows : List T → List (SortColumn T) → Option SortState → List T
  sort_rows rows columns none = rows
  sort_rows rows columns (some sort) =
      elim (find (λ (candidate : SortColumn T). candidate.key == sort.key) columns) [
        | none ↦ rows
        | some column ↦ sort_column column sort.direction rows
      ]

-- `queryParameterNames`: an absent prefix and an empty one are alike.
unfoldable pub query_parameter_names : Option String → String × String
query_parameter_names none = ("sort", "direction")
query_parameter_names (some prefix) =
    if prefix == "" then ("sort", "direction") else (prefix <> "_sort", prefix <> "_direction")

abbrev pub parsed_direction : Option String → Option SortDirection
parsed_direction none = none
parsed_direction (some d) = if d == "asc" then some asc else if d == "desc" then some desc else none

module _ {ℓ} {T : Type ℓ} where
  abbrev pub has_column : List (SortColumn T) → String → Bool
  has_column columns key = any (λ (column : SortColumn T). column.key == key) columns

  -- `initialSort`: the address's sort if it is valid, or the default if that is. `query` is
  -- `currentQueryParameter`.
  unfoldable pub url_sort : List (SortColumn T) → Option String → Option String → Option SortState
  url_sort columns none direction = none
  url_sort columns (some key) direction = elim (parsed_direction direction) [
    | none ↦ none
    | some d ↦ if has_column columns key then some (record { key = key; direction = d }) else none
  ]

  unfoldable pub default_sort : List (SortColumn T) → Option SortState → Option SortState
  default_sort columns none = none
  default_sort columns (some sort) = if has_column columns sort.key then some sort else none

  unfoldable pub initial_sort :
      List (SortColumn T)
      → Bool
      → Option String
      → Option SortState
      → (String → Option String)
      → Option SortState
  unfolding url_sort default_sort query_parameter_names
  initial_sort columns persist prefix fallback query =
      let (sort, direction) = query_parameter_names prefix in
      let from_url = if persist then url_sort columns (query sort) (query direction) else none in
      elim from_url [ none ↦ default_sort columns fallback | some s ↦ some s ]

-- The update of `toggle`.
unfoldable pub toggle : String → Option SortState → SortState
toggle key none = record { key = key; direction = asc }
toggle key (some current) = record {
  key = key;
  direction = if current.key == key && is_asc current.direction then desc else asc;
}
