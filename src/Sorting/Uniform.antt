-- ===== src/Sorting/Uniform.antt =====
-- The comparison of a column whose values are of one kind is a total preorder
-- (resources/js/hooks/use-sortable-rows.ts).
use horizon_new_dawn.Base.{arith}
use horizon_new_dawn.Base.Int.{ℤ, pos, ◌-ℤ◌, neg, ◌≤ℤ◌}
use horizon_new_dawn.Sorting.Rows.{
  SortDirection, asc, desc, SortValue, text, number, negative_infinity, null, SortColumn, Texts,
  compare_values,
}
use horizon_new_dawn.Sorting.Order.{IsConsistent}

-- The kind of a column's values.
pub data Kind : Type 0 where
  numbers strings : Kind

abbrev pub Has : Kind → SortValue → Type 0
Has numbers (number n) = Unit
Has numbers negative_infinity = Unit
Has strings (text s) = Unit
Has _ null = Unit
Has _ _ = ⊥

-- The collator orders texts, where the column has texts.
abbrev pub Orders : Texts → Kind → Type 0
Orders t numbers = Unit
Orders t strings = IsConsistent t.compare

-- A directed difference, by the order of the numbers.
below_of_sub : (m n : ℤ) → m -ℤ n ≤ℤ pos 0 → m ≤ℤ n
below_of_sub m n h = ground arith

sub_of_below : (m n : ℤ) → m ≤ℤ n → m -ℤ n ≤ℤ pos 0
sub_of_below m n h = ground arith

above_of_neg : (m n : ℤ) → neg (m -ℤ n) ≤ℤ pos 0 → n ≤ℤ m
above_of_neg m n h = ground arith

neg_of_above : (m n : ℤ) → n ≤ℤ m → neg (m -ℤ n) ≤ℤ pos 0
neg_of_above m n h = ground arith

module _ (t : Texts) where
  abbrev cv : SortValue → SortValue → SortDirection → ℤ
  cv = compare_values t

  cv_flip_le :
      (k : Kind) (d : SortDirection) (v w : SortValue)
      → Orders t k
      → Has k v
      → Has k w
      → cv v w d ≤ℤ pos 0
      → pos 0 ≤ℤ cv w v d
  unfolding compare_values
  cv_flip_le numbers d (number m) (number n) o p q h = ground arith
  cv_flip_le strings asc (text s) (text s') o p q h = o.flip_le s s' h
  cv_flip_le strings desc (text s) (text s') o p q h = ground (arith, o.flip_ge s s')
  cv_flip_le k d v w o p q h = ground arith

  cv_flip_ge :
      (k : Kind) (d : SortDirection) (v w : SortValue)
      → Orders t k
      → Has k v
      → Has k w
      → pos 0 ≤ℤ cv v w d
      → cv w v d ≤ℤ pos 0
  unfolding compare_values
  cv_flip_ge numbers d (number m) (number n) o p q h = ground arith
  cv_flip_ge strings asc (text s) (text s') o p q h = o.flip_ge s s' h
  cv_flip_ge strings desc (text s) (text s') o p q h = ground (arith, o.flip_le s s')
  cv_flip_ge k d v w o p q h = ground arith

  cv_trans :
      (k : Kind) (d : SortDirection) (v w x : SortValue)
      → Orders t k
      → Has k v
      → Has k w
      → Has k x
      → cv v w d ≤ℤ pos 0
      → cv w x d ≤ℤ pos 0
      → cv v x d ≤ℤ pos 0
  unfolding compare_values
  cv_trans numbers asc (number m) (number n) (number l) o p q r h h' =
      sub_of_below m l (omega (arith, below_of_sub m n h, below_of_sub n l h'))
  cv_trans numbers desc (number m) (number n) (number l) o p q r h h' =
      neg_of_above m l (omega (arith, above_of_neg m n h, above_of_neg n l h'))
  cv_trans strings asc (text s) (text s') (text s'') o p q r h h' = o.le_trans s s' s'' h h'
  cv_trans strings desc (text s) (text s') (text s'') o p q r h h' =
      let back : t.compare s' s ≤ℤ pos 0 = o.flip_ge s s' (ground arith) in
      let back' : t.compare s'' s' ≤ℤ pos 0 = o.flip_ge s' s'' (ground arith) in
      let ge : pos 0 ≤ℤ t.compare s s'' = o.flip_le s'' s (o.le_trans s'' s' s back' back) in
      ground arith
  cv_trans k d v w x o p q r h h' = ground arith

-- A column's comparison is a total preorder in both directions: nulls come last in both.
pub compare_values-IsConsistent {ℓ} :
    {T : Type ℓ} (t : Texts) (k : Kind) (d : SortDirection) (column : SortColumn T)
    → Orders t k
    → ((row : T) → Has k (column.value row))
    → IsConsistent (λ (a b : T). compare_values t (column.value a) (column.value b) d)
compare_values-IsConsistent t k d column o has = record {
  flip_le = λ a b. cv_flip_le t k d (column.value a) (column.value b) o (has a) (has b);
  flip_ge = λ a b. cv_flip_ge t k d (column.value a) (column.value b) o (has a) (has b);
  le_trans = λ a b e.
      cv_trans t k d (column.value a) (column.value b) (column.value e) o (has a) (has b) (has e);
}
