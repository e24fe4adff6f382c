-- ===== src/Theme/Scheme.antt =====
-- resources/js/hooks/use-color-scheme.tsx: the schemes, their cycle and their storage.
use horizon_new_dawn.Base.{
  ℕ, zero, suc, ◌+◌, ◌%◌, String, Bool, true, false, Option, none, some, List, [], ◌∷◌, length,
  if◌then◌else◌, string_eq,
}

pub data ResolvedColorScheme : Type 0 where
  dark light : ResolvedColorScheme

-- `"system" | "dark" | "light"`.
pub data ColorScheme : Type 0 where
  system : ColorScheme
  chosen : ResolvedColorScheme → ColorScheme

abbrev pub schemes : List ColorScheme
schemes = system ∷ chosen dark ∷ chosen light ∷ []

abbrev pub scheme_name : ColorScheme → String
scheme_name system = "system"
scheme_name (chosen dark) = "dark"
scheme_name (chosen light) = "light"

abbrev pub same_scheme : ColorScheme → ColorScheme → Bool
same_scheme system system = true
same_scheme (chosen dark) (chosen dark) = true
same_scheme (chosen light) (chosen light) = true
same_scheme a b = false

-- `schemes.indexOf(current)`, from the index of the first element on.
unfoldable pub index_of : List ColorScheme → ColorScheme → ℕ → ℕ
index_of [] current i = 0
index_of (x ∷ xs) current i =
    let rest = index_of xs current (i + 1) in if same_scheme x current then i else rest

unfoldable pub get_elem? : {A : Type 0} → List A → ℕ → Option A
get_elem? [] i = none
get_elem? (x ∷ xs) zero = some x
get_elem? (x ∷ xs) (suc i) = get_elem? xs i

-- The update of `cycle`.
unfoldable pub next_scheme : ColorScheme → Option ColorScheme
unfolding index_of get_elem?
next_scheme current = get_elem? schemes ((index_of schemes current 0 + 1) % length schemes)
