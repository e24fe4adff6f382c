-- ===== src/Sorting/Persisted.antt =====
-- The sort that `toggle` of resources/js/hooks/use-sortable-rows.ts writes to the address, and its way back.
use text.Mathlib.TextLemmas.{append_cancel_left}
use horizon_new_dawn.Base.{
  String, ◌<>◌, Bool, true, false, ◌≡◌, ◌≢◌, refl, ap, ap₂, sym, ◌∙◌, Option, none, some, List, [],
  ◌∷◌, arith, if◌then◌else◌, ◌==◌, string_eq, ==_refl, by_test,
}
use horizon_new_dawn.Base.Int.{ℤ}
use horizon_new_dawn.Query.Params.{Params, get, set, delete, get-set}
use horizon_new_dawn.Query.Address.{Platform, replace_current_query, replaced}
use horizon_new_dawn.Query.Merge.{
  QueryParameterValue, Parameters, Url, fill, url_with_current_query, put_all, put, remove_all,
  current_query_parameter,
}
use horizon_new_dawn.Query.Merge
use horizon_new_dawn.Sorting.Rows.{
  SortDirection, asc, desc, SortColumn, SortState, query_parameter_names, parsed_direction,
  has_column, url_sort, default_sort, initial_sort, toggle,
}

abbrev pub direction_text : SortDirection → String
direction_text asc = "asc"
direction_text desc = "desc"

unfoldable pub sort_parameters : Option String → SortState → Parameters
unfolding query_parameter_names
sort_parameters prefix next =
    let names = query_parameter_names prefix in
    (names.0, Merge.text next.key) ∷ (names.1, Merge.text (direction_text next.direction)) ∷ []

-- The window's address after `toggle`.
unfoldable pub toggled_address :
    (ℤ → String) → Platform → Bool → Option String → SortState → String → String
unfolding sort_parameters replace_current_query
toggled_address show p persist prefix next address =
    if persist
    then replaced address (replace_current_query show p address (sort_parameters prefix next))
    else address

different : (a b : String) → a ≢ b → (a == b) ≡ false
different a b h = ground (arith, h)

abbrev is_sort_suffix : String → Bool
is_sort_suffix s = s == "_sort"

literals : (s t : String) → s ≡ t → is_sort_suffix s ≡ false → is_sort_suffix t ≡ true → ⊥
literals s t e f g = ground (arith, sym f ∙ (ap is_sort_suffix e ∙ g))

direction_suffix : is_sort_suffix "_direction" ≡ false
unfolding string_eq
direction_suffix = refl

sort_suffix : is_sort_suffix "_sort" ≡ true
unfolding string_eq
sort_suffix = refl

abbrev NamesApart : String × String → Type 0
NamesApart names = (names.1 == names.0) ≡ false

plain-NamesApart : NamesApart ("sort", "direction")
unfolding string_eq
plain-NamesApart = refl

suffixed-NamesApart : (prefix : String) → ((prefix <> "_direction") == (prefix <> "_sort")) ≡ false
suffixed-NamesApart prefix = different _ _ (λ e.
    literals _ _ (append_cancel_left prefix "_direction" "_sort" e) direction_suffix sort_suffix)

query_parameter_names-NamesApart :
    (prefix : Option String) → NamesApart (query_parameter_names prefix)
unfolding query_parameter_names
query_parameter_names-NamesApart none = plain-NamesApart
query_parameter_names-NamesApart (some prefix) =
    by_test NamesApart (prefix == "") (λ blank. plain-NamesApart)
      (λ named. suffixed-NamesApart prefix)

parsed-direction_text : (d : SortDirection) → parsed_direction (some (direction_text d)) ≡ some d
unfolding string_eq
parsed-direction_text asc = refl
parsed-direction_text desc = refl

set_value :
    (show : ℤ → String) (value : String)
    → (value == "") ≡ false
    → Merge.to_set show (Merge.text value) ≡ some value
set_value show value h = rw h refl

put_text :
    (show : ℤ → String) (name value : String) (url : Params)
    → (value == "") ≡ false
    → put show name (Merge.text value) url ≡ set name value url
unfolding put
put_text show name value url h =
    ap (λ (o : Option String). elim o [ none ↦ delete name url | some v ↦ set name v url ])
      (set_value show value h)

named_direction : (d : SortDirection) → (direction_text d == "") ≡ false
unfolding string_eq
named_direction asc = refl
named_direction desc = refl

-- What is read of two parameters that were just put.
module _ (show : ℤ → String) (s d key direction : String) (url : Params) where
  abbrev written : Params
  written = put show d (Merge.text direction) (put show s (Merge.text key) url)

  written_lem :
      (key == "") ≡ false → (direction == "") ≡ false → written ≡ set d direction (set s key url)
  written_lem k h = put_text show d direction _ h ∙ ap (set d direction) (put_text show s key url k)

  get-written_sort :
      (key == "") ≡ false → (direction == "") ≡ false → (d == s) ≡ false → get s written ≡ some key
  get-written_sort k h apart =
      ap (get s) (written_lem k h)
      ∙ (get-set d s direction (set s key url)
          ∙ (rw apart
              (get-set s s key url ∙ ap (λ b. if b then some key else get s url) (==_refl s))))

  get-written_direction :
      (key == "") ≡ false → (direction == "") ≡ false → get d written ≡ some direction
  get-written_direction k h =
      ap (get d) (written_lem k h)
      ∙ (get-set d d direction (set s key url)
          ∙ ap (λ b. if b then some direction else get d (set s key url)) (==_refl d))

pub toggle_key : (key : String) (sort : Option SortState) → (toggle key sort).key ≡ key
unfolding toggle
toggle_key key none = refl
toggle_key key (some current) = refl

module _ {ℓ} {T : Type ℓ} (columns : List (SortColumn T)) where
  url_sort_lem :
      (s : SortState)
      → has_column columns s.key ≡ true
      → url_sort columns (some s.key) (some (direction_text s.direction)) ≡ some s
  unfolding url_sort
  url_sort_lem s h =
      ap
        (λ (direction : Option SortDirection). elim direction [
          | none ↦ none
          | some d ↦
              if has_column columns s.key
              then some (record { key = s.key; direction = d })
              else none
        ])
        (parsed-direction_text s.direction)
      ∙ rw h refl

  -- What is read of a query that the sort was just put into.
  pub read_back :
      (show : ℤ → String) (prefix : Option String) (fallback : Option SortState) (next : SortState)
      (current destination : Url)
      → (next.key == "") ≡ false
      → has_column columns next.key ≡ true
      → initial_sort columns true prefix fallback (λ name.
        get name
          (url_with_current_query show current destination
            (sort_parameters prefix next)
            []).search_params)
        ≡ some next
  unfolding initial_sort sort_parameters put_all url_with_current_query
  read_back show prefix fallback next current destination named column =
      let names = query_parameter_names prefix in
      let url = remove_all [] (fill current.search_params destination.search_params) in
      let direction = direction_text next.direction in
      let directed = named_direction next.direction in
      ap
        (λ (from_url : Option SortState). elim from_url [
          | none ↦ default_sort columns fallback
          | some s ↦ some s
        ])
        (ap₂ (url_sort columns)
            (get-written_sort show names.0 names.1 next.key direction url named directed
              (query_parameter_names-NamesApart prefix))
            (get-written_direction show names.0 names.1 next.key direction url named directed)
          ∙ url_sort_lem next column)
