-- ===== src/Sorting/Reload.antt =====
-- The sort of resources/js/hooks/use-sortable-rows.ts after a load from the address that `toggle` has replaced.
use horizon_new_dawn.Base.{
  List, String, ◌<>◌, true, false, ◌≡◌, ap, sym, ◌∙◌, inl, inr, Option, some, [], ◌==◌, string_eq,
  ==-cases,
}
use horizon_new_dawn.Base.Int.{ℤ}
use horizon_new_dawn.Query.Params.{Params, get}
use horizon_new_dawn.Query.Merge.{Url, url_with_current_query, current_query_parameter}
use horizon_new_dawn.Query.Address.{
  Platform, relative_url, relative_address, address_with_current_query, current_address_with_query,
  replace_current_query,
}
use horizon_new_dawn.Sorting.Rows.{SortColumn, SortState, has_column, initial_sort, toggle}
use horizon_new_dawn.Sorting.Persisted.{sort_parameters, toggled_address, read_back, toggle_key}

-- The text of the address as it is.
abbrev pub own_address : Platform → String → String
own_address p address =
    let current = p.parse address in current.pathname <> (p.search address <> current.hash)

-- The text of a URL whose parameters have been changed.
abbrev pub text_of : Platform → Url → String
text_of p url = url.pathname <> (p.show_search url.search_params <> url.hash)

module _ (show : ℤ → String) (p : Platform) (prefix : Option String) (address : String) where
  -- The URL of the address with the sort.
  abbrev pub with_sort : SortState → Url
  with_sort next =
      url_with_current_query show (p.parse address) (p.parse (own_address p address))
        (sort_parameters prefix next) []

  toggled_search :
      (next : SortState)
      → (p.parse (own_address p address)).search_params ≡ (p.parse address).search_params
      → (p.parse (text_of p (with_sort next))).search_params ≡ (with_sort next).search_params
      → (p.parse (toggled_address show p true prefix next address)).search_params
        ≡ (with_sort next).search_params
  unfolding toggled_address replace_current_query current_address_with_query
      address_with_current_query relative_address relative_url
  toggled_search next own written =
      elim (==-cases (text_of p (with_sort next)) (own_address p address)) [
        | inl (same, eq) ↦
            rw same (sym own ∙ ap (λ text. (p.parse text).search_params) (sym eq) ∙ written)
        | inr (differ, ne) ↦ rw differ written
      ]

module _ {ℓ} {T : Type ℓ} (columns : List (SortColumn T)) where
  -- A sort that was toggled is there after the page is loaded again from the window's address, if sorts are kept
  -- there, the column is one of the table's and its key is not empty, and the platform finds the same query when it
  -- parses the text of the address, and of the address with the sort, once more.
  pub initial_sort-toggled_address :
      (show : ℤ → String) (p : Platform) (prefix : Option String) (fallback : Option SortState)
      (address key : String) (sort : Option SortState)
      → (key == "") ≡ false
      → has_column columns key ≡ true
      → (p.parse (own_address p address)).search_params ≡ (p.parse address).search_params
      → let url = with_sort show p prefix address (toggle key sort) in
        (p.parse (text_of p url)).search_params ≡ url.search_params
        → initial_sort columns true prefix fallback (
            current_query_parameter
              (some (p.parse (toggled_address show p true prefix (toggle key sort) address))))
          ≡ some (toggle key sort)
  unfolding current_query_parameter
  initial_sort-toggled_address show p prefix fallback address key sort named column own written =
      let next = toggle key sort in
      ap (λ (q : Params). initial_sort columns true prefix fallback (λ name. get name q))
        (toggled_search show p prefix address next own written)
      ∙ read_back columns show prefix fallback next (p.parse address)
          (p.parse (own_address p address)) (ap (λ k. k == "") (toggle_key key sort) ∙ named)
          (ap (has_column columns) (toggle_key key sort) ∙ column)
