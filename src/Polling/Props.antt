-- ===== src/Polling/Props.antt =====
-- The props that a poll asks for: `Array.from(new Set([...]))` in resources/js/hooks/
-- use-auto-load.ts and use-dashboard-refresh.ts.
use horizon_new_dawn.Base.{
  String, false, ◌||◌, ◌≡◌, refl, List, [], ◌∷◌, ◌++◌, arith, if◌then◌else◌, string_eq, contains,
  contains-append, Distinct, Bool-cases, inl, inr,
}

-- The set of the names seen, in insertion order, and the names still to add.
unfoldable pub add_all : List String → List String → List String
add_all seen [] = seen
add_all seen (x ∷ xs) = add_all (if contains seen x then seen else seen ++ x ∷ []) xs

unfoldable pub unique : List String → List String
unfolding add_all
unique xs = add_all [] xs

abbrev pub shared_props : List String
shared_props = "horizon" ∷ "navigationCounts" ∷ []

append_fresh :
    (xs : List String) (a : String) → Distinct xs → contains xs a ≡ false → Distinct (xs ++ a ∷ [])
unfolding contains
append_fresh [] a d h = (refl, tt)
append_fresh (x ∷ xs) a d h =
    (ground (arith, contains-append xs (a ∷ []) x), append_fresh xs a d.1 (ground arith))

add_all-Distinct : (seen xs : List String) → Distinct seen → Distinct (add_all seen xs)
unfolding add_all
add_all-Distinct seen [] d = d
add_all-Distinct seen (x ∷ xs) d = elim (Bool-cases (contains seen x)) [
  | inl old ↦ rw old (add_all-Distinct seen xs d)
  | inr new ↦ rw new (add_all-Distinct (seen ++ x ∷ []) xs (append_fresh seen x d new))
]

contains-add_all :
    (seen xs : List String) (a : String)
    → contains (add_all seen xs) a ≡ contains seen a || contains xs a
unfolding add_all contains
contains-add_all seen [] a = ground arith
contains-add_all seen (x ∷ xs) a = ground (
  arith,
  contains-add_all (if contains seen x then seen else seen ++ x ∷ []) xs a,
  contains-append seen (x ∷ []) a,
)

-- The result names each prop once, and the same props as the list.
pub unique_lem :
    (xs : List String)
    → Distinct (unique xs) × ((a : String) → contains (unique xs) a ≡ contains xs a)
unfolding unique contains
unique_lem xs = (add_all-Distinct [] xs tt, contains-add_all [] xs)
