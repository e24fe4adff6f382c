-- ===== src/Sorting/Result.antt =====
-- What `sortRows` returns (resources/js/hooks/use-sortable-rows.ts).
use mathlib.Core.List.{Perm}
use mathlib.Core.List.Perm
use horizon_new_dawn.Base.{
  ℕ, suc, ◌≤◌, ◌≡◌, refl, ap, ◌∙◌, Option, none, some, List, [], ◌∷◌, map, arith, ◌==◌, string_eq,
  All, keep, find, Bool-cases, Option-cases, inl, inr,
}
use horizon_new_dawn.Base.Int.{ℤ, pos, ◌≤ℤ◌, leb_ℤ}
use horizon_new_dawn.Sorting.Rows.{
  SortDirection, SortValue, text, number, negative_infinity, null, SortColumn, SortState, Texts,
  is_zero, compare_values, with_index, insert_row, sort_by, compare_indexed, sort_column, sort_rows,
}
use horizon_new_dawn.Sorting.Uniform.{Kind, Has, Orders, compare_values-IsConsistent}
use horizon_new_dawn.Sorting.Order.{IsSorted, sort_by-perm, sort_by-IsSorted, sort_by_stable}

-- The comparison of rows by a column.
abbrev pub by_column {ℓ} : {T : Type ℓ} → Texts → SortColumn T → SortDirection → T → T → ℤ
by_column texts column direction left right =
    compare_values texts (column.value left) (column.value right) direction

module _ {ℓ} {T : Type ℓ} (texts : Texts) (column : SortColumn T) (direction : SortDirection) where
  abbrev c : T → T → ℤ
  c = by_column texts column direction

  abbrev indexed : T × ℕ → T × ℕ → ℤ
  indexed = compare_indexed texts column direction

  abbrev From : ℕ → List (T × ℕ) → Type 0
  From i = All (λ (e : T × ℕ). i ≤ e.1)

  rows_of-insert_row :
      (x : T) (i : ℕ) (es : List (T × ℕ))
      → From (suc i) es
      → map (λ (e : T × ℕ). e.0) (insert_row indexed (x, i) es)
        ≡ insert_row c x (map (λ (e : T × ℕ). e.0) es)
  unfolding insert_row compare_indexed
  rows_of-insert_row x i [] h = refl
  rows_of-insert_row x i ((y, j) ∷ es) h = ground (arith, rows_of-insert_row x i es h.1, h.0)

  From-insert_row :
      (k : ℕ) (x : T) (i : ℕ) (es : List (T × ℕ))
      → k ≤ i
      → From k es
      → From k (insert_row indexed (x, i) es)
  unfolding insert_row
  From-insert_row k x i [] le h = (le, tt)
  From-insert_row k x i (e ∷ es) le h = elim (Bool-cases (leb_ℤ (indexed (x, i) e) (pos 0))) [
    | inl before ↦ rw before (le, h)
    | inr behind ↦ rw behind (h.0, From-insert_row k x i es le h.1)
  ]

  From-suc : (k : ℕ) (es : List (T × ℕ)) → From (suc k) es → From k es
  From-suc k [] h = tt
  From-suc k (e ∷ es) h = (omega (arith, h.0), From-suc k es h.1)

  From-sort_by : (i : ℕ) (rows : List T) → From i (sort_by indexed (with_index i rows))
  unfolding sort_by with_index
  From-sort_by i [] = tt
  From-sort_by i (row ∷ rows) =
      From-insert_row i row i _ (omega arith) (From-suc i _ (From-sort_by (suc i) rows))

  rows_of-sort_by :
      (i : ℕ) (rows : List T)
      → map (λ (e : T × ℕ). e.0) (sort_by indexed (with_index i rows)) ≡ sort_by c rows
  unfolding sort_by with_index
  rows_of-sort_by i [] = refl
  rows_of-sort_by i (row ∷ rows) =
      rows_of-insert_row row i _ (From-sort_by (suc i) rows)
      ∙ ap (insert_row c row) (rows_of-sort_by (suc i) rows)

  sort_column_lem : (rows : List T) → sort_column texts column direction rows ≡ sort_by c rows
  unfolding sort_column
  sort_column_lem rows = rows_of-sort_by 0 rows

-- Sorting loses and adds no row, whatever the columns, the sort and the collator.
pub sort_rows-perm {ℓ} :
    {T : Type ℓ} (texts : Texts) (rows : List T) (columns : List (SortColumn T))
    (sort : Option SortState)
    → Perm (sort_rows texts rows columns sort) rows
unfolding sort_rows
sort_rows-perm texts rows columns none = Perm.refl rows
sort_rows-perm {T} texts rows columns (some sort) =
    elim (Option-cases (find (λ (candidate : SortColumn T). candidate.key == sort.key) columns)) [
      | inl missing ↦ rw (missing, sort_rows) (Perm.refl rows)
      | inr (column, found) ↦
          rw (found, sort_rows, sort_column_lem texts column sort.direction rows)
            (sort_by-perm (by_column texts column sort.direction) rows)
    ]

sort_rows-found {ℓ} :
    {T : Type ℓ} (texts : Texts) (rows : List T) (columns : List (SortColumn T)) (sort : SortState)
    {column : SortColumn T}
    → find (λ (candidate : SortColumn T). candidate.key == sort.key) columns ≡ some column
    → sort_rows texts rows columns (some sort)
      ≡ sort_by (by_column texts column sort.direction) rows
unfolding sort_rows
sort_rows-found texts rows columns sort {column} found =
    rw (found, sort_rows) (sort_column_lem texts column sort.direction rows)

-- With a sort by a column that is there and of one kind, numbers or texts besides nulls, and a
-- collator that orders texts: the result is in order by that column in the direction asked for,
-- and rows that compare equal to a given row keep their order.
pub sort_rows-IsSorted_stable {ℓ} :
    {T : Type ℓ} (texts : Texts) (k : Kind) (rows : List T) (columns : List (SortColumn T))
    (sort : SortState) (column : SortColumn T) (row : T)
    → find (λ (candidate : SortColumn T). candidate.key == sort.key) columns ≡ some column
    → Orders texts k
    → ((row : T) → Has k (column.value row))
    → let c = by_column texts column sort.direction in
      let sorted = sort_rows texts rows columns (some sort) in
      IsSorted c sorted
      × (keep (λ x. is_zero (c row x)) sorted ≡ keep (λ x. is_zero (c row x)) rows)
sort_rows-IsSorted_stable texts k rows columns sort column row found orders has =
    let consistent = compare_values-IsConsistent texts k sort.direction column orders has in
    let c = by_column texts column sort.direction in
    rw (sort_rows-found texts rows columns sort found)
      (sort_by-IsSorted c consistent rows, sort_by_stable c consistent row rows)

null_of_behind :
    (texts : Texts) (d : SortDirection) (v : SortValue)
    → compare_values texts null v d ≤ℤ pos 0
    → v ≡ null
unfolding compare_values
null_of_behind texts d null le = refl
null_of_behind texts d (text s) le = absurd (omega arith)
null_of_behind texts d negative_infinity le = absurd (omega arith)
null_of_behind texts d (number n) le = absurd (omega arith)

-- In a table that is sorted by a column, in either direction, every row behind one without a
-- value has none either.
pub nulls_last {ℓ} :
    {T : Type ℓ} (texts : Texts) (column : SortColumn T) (direction : SortDirection) (row : T)
    (rows : List T)
    → IsSorted (by_column texts column direction) (row ∷ rows)
    → column.value row ≡ null
    → All (λ (r : T). column.value r ≡ null) rows
nulls_last {T} texts column direction row rows sorted h = behind rows sorted.0
  where
    behind :
        (rs : List T)
        → All (λ r. by_column texts column direction row r ≤ℤ pos 0) rs
        → All (λ r. column.value r ≡ null) rs
    behind [] le = tt
    behind (r ∷ rs) le =
        (null_of_behind texts direction (column.value r) (rw h at le.0), behind rs le.1)
