-- ===== src/Query/Params.antt =====
-- `URLSearchParams`: the pairs of a query in order, as the URL standard defines its methods.
use horizon_new_dawn.Base.{
  String, Bool, true, false, ◌||◌, ◌≡◌, ◌≢◌, refl, sym, Option, none, some, List, [], ◌∷◌, arith,
  if◌then◌else◌, ◌==◌, string_eq,
}

abbrev pub Params : Type 0
Params = List (String × String)

unfoldable pub get : String → Params → Option String
get k [] = none
get k ((j, v) ∷ ps) = let rest = get k ps in if j == k then some v else rest

unfoldable pub has : String → Params → Bool
has k [] = false
has k ((j, v) ∷ ps) = j == k || has k ps

unfoldable pub delete : String → Params → Params
delete k [] = []
delete k ((j, v) ∷ ps) = let rest = delete k ps in if j == k then rest else (j, v) ∷ rest

-- The first pair with the name is given the value and the others go; or a pair is appended.
unfoldable pub set : String → String → Params → Params
unfolding delete
set k v [] = (k, v) ∷ []
set k v ((j, w) ∷ ps) =
    let rest = set k v ps in if j == k then (k, v) ∷ delete k ps else (j, w) ∷ rest

pub get-delete :
    (k j : String) (ps : Params) → get j (delete k ps) ≡ (if k == j then none else get j ps)
unfolding get delete
get-delete k j [] = ground arith
get-delete k j ((i, w) ∷ ps) = ground (arith, get-delete k j ps)

pub get-set :
    (k j v : String) (ps : Params) → get j (set k v ps) ≡ (if k == j then some v else get j ps)
unfolding get set
get-set k j v [] = ground arith
get-set k j v ((i, w) ∷ ps) = ground (arith, get-set k j v ps, get-delete k j ps)

pub has-delete :
    (k j : String) (ps : Params) → has j (delete k ps) ≡ (if k == j then false else has j ps)
unfolding has delete
has-delete k j [] = ground arith
has-delete k j ((i, w) ∷ ps) = ground (arith, has-delete k j ps)

pub has-set :
    (k j v : String) (ps : Params) → has j (set k v ps) ≡ (if k == j then true else has j ps)
unfolding has set
has-set k j v [] = ground arith
has-set k j v ((i, w) ∷ ps) = ground (arith, has-set k j v ps, has-delete k j ps)

pub get_of_has : (k : String) (ps : Params) → has k ps ≡ false → get k ps ≡ none
unfolding has get
get_of_has k [] h = refl
get_of_has k ((i, w) ∷ ps) h = ground (arith, get_of_has k ps)

pub has_of_get : (k : String) (ps : Params) {v : String} → get k ps ≡ some v → has k ps ≡ true
unfolding has get
has_of_get k [] h = cc
has_of_get k ((i, w) ∷ ps) {v} h = ground (arith, has_of_get k ps {v = v})

pub get_of_has-true : (k : String) (ps : Params) → has k ps ≡ true → get k ps ≢ none
unfolding has get
get_of_has-true k [] h = cc
get_of_has-true k ((i, w) ∷ ps) h = ground (arith, get_of_has-true k ps)

pub delete_absent : (k : String) (ps : Params) → has k ps ≡ false → delete k ps ≡ ps
unfolding has delete
delete_absent k [] h = refl
delete_absent k ((i, w) ∷ ps) h = ground (arith, delete_absent k ps)

pub set_idem : (k v : String) (ps : Params) → set k v (set k v ps) ≡ set k v ps
unfolding set
set_idem k v [] = ground (arith, delete_absent k [])
set_idem k v ((i, w) ∷ ps) =
    ground (arith, set_idem k v ps, delete_absent k (delete k ps), has-delete k k ps)

pub delete_comm : (k j : String) (ps : Params) → delete k (delete j ps) ≡ delete j (delete k ps)
unfolding delete
delete_comm k j [] = refl
delete_comm k j ((i, w) ∷ ps) = ground (arith, delete_comm k j ps)

pub set-delete :
    (k j v : String) (ps : Params) → k ≢ j → set k v (delete j ps) ≡ delete j (set k v ps)
unfolding set delete
set-delete k j v [] h = ground arith
set-delete k j v ((i, w) ∷ ps) h = ground (arith, set-delete k j v ps h, delete_comm k j ps)

-- Names that are there may be set in either order.
pub set_comm :
    (k j v w : String) (ps : Params)
    → k ≢ j
    → has k ps ≡ true
    → set k v (set j w ps) ≡ set j w (set k v ps)
unfolding set has
set_comm k j v w [] h p = cc
set_comm k j v w ((i, u) ∷ ps) h p = ground (
  arith,
  set_comm k j v w ps h,
  set-delete k j v ps h,
  set-delete j k w ps (λ e. h (sym e)),
  delete_comm k j ps,
)
