-- ===== src/Sorting/Order.antt =====
-- Insertion sort by a consistent comparison: what it keeps, its order, its stability.
use mathlib.Core.List.{Perm}
use mathlib.Core.List.Perm
use horizon_new_dawn.Base.{
  Bool, true, false, ◌≡◌, refl, List, [], ◌∷◌, arith, All, keep, Bool-cases, inl, inr,
}
use horizon_new_dawn.Base.Int.{ℤ, pos, ◌≤ℤ◌, leb_ℤ}
use horizon_new_dawn.Sorting.Rows.{is_zero, insert_row, sort_by}

-- The three-way comparison is a total preorder.
pub record IsConsistent {ℓ} {T : Type ℓ} (c : T → T → ℤ) : Type ℓ where
  pub flip_le : (a b : T) → c a b ≤ℤ pos 0 → pos 0 ≤ℤ c b a
  pub flip_ge : (a b : T) → pos 0 ≤ℤ c a b → c b a ≤ℤ pos 0
  pub le_trans : (a b d : T) → c a b ≤ℤ pos 0 → c b d ≤ℤ pos 0 → c a d ≤ℤ pos 0

module _ {ℓ} {T : Type ℓ} (c : T → T → ℤ) where
  pub insert_row-perm : (x : T) (xs : List T) → Perm (insert_row c x xs) (x ∷ xs)
  unfolding insert_row
  insert_row-perm x [] = Perm.refl (x ∷ [])
  insert_row-perm x (y ∷ ys) = elim (Bool-cases (leb_ℤ (c x y) (pos 0))) [
    | inl le ↦ rw le (Perm.refl (x ∷ y ∷ ys))
    | inr gt ↦ rw gt (Perm.trans (Perm.cons y (insert_row-perm x ys)) (Perm.swap x y ys))
  ]

  pub sort_by-perm : (xs : List T) → Perm (sort_by c xs) xs
  unfolding sort_by
  sort_by-perm [] = Perm.refl []
  sort_by-perm (x ∷ xs) =
      Perm.trans (insert_row-perm x (sort_by c xs)) (Perm.cons x (sort_by-perm xs))

  -- Each element comes before the later ones.
  abbrev pub IsSorted : List T → Type 0
  IsSorted [] = Unit
  IsSorted (x ∷ xs) = All (λ y. c x y ≤ℤ pos 0) xs × IsSorted xs

  module _ (k : IsConsistent c) where
    All-before :
        (x y : T) (ys : List T)
        → c x y ≤ℤ pos 0
        → All (λ z. c y z ≤ℤ pos 0) ys
        → All (λ z. c x z ≤ℤ pos 0) ys
    All-before x y [] le h = tt
    All-before x y (z ∷ ys) le h = (k.le_trans x y z le h.0, All-before x y ys le h.1)

    All-insert_row :
        (z x : T) (ys : List T)
        → c z x ≤ℤ pos 0
        → All (λ y. c z y ≤ℤ pos 0) ys
        → All (λ y. c z y ≤ℤ pos 0) (insert_row c x ys)
    unfolding insert_row
    All-insert_row z x [] le h = (le, tt)
    All-insert_row z x (y ∷ ys) le h = elim (Bool-cases (leb_ℤ (c x y) (pos 0))) [
      | inl before ↦ rw before (le, h)
      | inr behind ↦ rw behind (h.0, All-insert_row z x ys le h.1)
    ]

    after_of_not_before : (x y : T) → leb_ℤ (c x y) (pos 0) ≡ false → c y x ≤ℤ pos 0
    after_of_not_before x y h = k.flip_ge x y (ground arith)

    insert_row-IsSorted : (x : T) (ys : List T) → IsSorted ys → IsSorted (insert_row c x ys)
    unfolding insert_row
    insert_row-IsSorted x [] h = (tt, tt)
    insert_row-IsSorted x (y ∷ ys) h = elim (Bool-cases (leb_ℤ (c x y) (pos 0))) [
      | inl before ↦
          let le : c x y ≤ℤ pos 0 = ground arith in rw before ((le, All-before x y ys le h.0), h)
      | inr behind ↦
          rw behind (
            All-insert_row y x ys (after_of_not_before x y behind) h.0,
            insert_row-IsSorted x ys h.1,
          )
    ]

    pub sort_by-IsSorted : (xs : List T) → IsSorted (sort_by c xs)
    unfolding sort_by
    sort_by-IsSorted [] = tt
    sort_by-IsSorted (x ∷ xs) = insert_row-IsSorted x (sort_by c xs) (sort_by-IsSorted xs)

    -- `a` and `b` compare equal.
    abbrev pub ties : T → T → Bool
    ties a b = is_zero (c a b)

    zero_of_ties : (a b : T) → ties a b ≡ true → (c a b ≤ℤ pos 0) × (pos 0 ≤ℤ c a b)
    zero_of_ties a b h = ground arith

    -- What is moved behind by an insertion does not tie with what is inserted.
    not-ties : (v x y : T) → ties v x ≡ true → leb_ℤ (c x y) (pos 0) ≡ false → ties v y ≡ false
    not-ties v x y tie behind = elim (Bool-cases (ties v y)) [
      | inr no_tie ↦ no_tie
      | inl tie' ↦
          let (_, ge) = zero_of_ties v x tie in
          let (le, _) = zero_of_ties v y tie' in
          let back = k.le_trans x v y (k.flip_ge v x ge) le in absurd (ground arith)
    ]

    keep-insert_row :
        (v x : T) (ys : List T) → keep (ties v) (insert_row c x ys) ≡ keep (ties v) (x ∷ ys)
    unfolding keep insert_row
    keep-insert_row v x [] = refl
    keep-insert_row v x (y ∷ ys) = ground (arith, keep-insert_row v x ys, not-ties v x y)

    -- Elements that tie keep their order.
    pub sort_by_stable : (v : T) (xs : List T) → keep (ties v) (sort_by c xs) ≡ keep (ties v) xs
    unfolding keep sort_by
    sort_by_stable v [] = refl
    sort_by_stable v (x ∷ xs) =
        ground (arith, keep-insert_row v x (sort_by c xs), sort_by_stable v xs)
