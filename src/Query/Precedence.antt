-- ===== src/Query/Precedence.antt =====
-- Which value a query parameter ends up with (resources/js/lib/url-query.ts).
use horizon_new_dawn.Base.{
  String, ◌≡◌, refl, Option, none, some, List, [], ◌∷◌, arith, if◌then◌else◌, ◌==◌, string_eq,
  contains, Option-cases, inl, inr,
}
use horizon_new_dawn.Base.Dict.{lookup, NodupKeys}
use horizon_new_dawn.Base.Int.{ℤ}
use horizon_new_dawn.Query.Params.{
  Params, get, has, delete, set, get-set, get-delete, get_of_has, get_of_has-true,
}
use horizon_new_dawn.Query.Merge.{
  QueryParameterValue, Parameters, Url, fill, remove_all, to_set, put, put_all,
  url_with_current_query,
}

abbrev pub or_else : Option String → Option String → Option String
or_else none b = b
or_else (some a) b = some a

get-fill :
    (k : String) (source url : Params)
    → get k (fill source url) ≡ or_else (get k url) (get k source)
unfolding fill get
get-fill k [] url = ground arith
get-fill k ((name, value) ∷ source) url = ground (
  arith,
  get-fill k source (if has name url then url else set name value url),
  get-set name k value url,
  get_of_has name url,
  get_of_has-true name url,
)

get-remove_all :
    (k : String) (names : List String) (url : Params)
    → get k (remove_all names url) ≡ (if contains names k then none else get k url)
unfolding remove_all contains
get-remove_all k [] url = refl
get-remove_all k (name ∷ names) url =
    ground (arith, get-remove_all k names (delete name url), get-delete name k url)

module _ (show : ℤ → String) where
  get-put :
      (k name : String) (value : QueryParameterValue) (url : Params)
      → get k (put show name value url) ≡ (if name == k then to_set show value else get k url)
  unfolding put
  get-put k name value url = elim (Option-cases (to_set show value)) [
    | inl blank ↦ rw (blank, put) (get-delete name k url)
    | inr (v, e) ↦ rw (e, put) (get-set name k v url)
  ]

  -- The value for a name that is among the parameters, or is not.
  abbrev pub overridden : Option QueryParameterValue → Option String → Option String
  overridden none before = before
  overridden (some value) before = to_set show value

  get-put_all :
      (k : String) (ps : Parameters) (url : Params)
      → NodupKeys ps
      → get k (put_all show ps url) ≡ overridden (lookup k ps) (get k url)
  unfolding put_all lookup
  get-put_all k [] url u = refl
  get-put_all k ((name, value) ∷ ps) url (fresh, u) =
      ground (arith, get-put_all k ps (put show name value url) u, get-put k name value url)

  -- Where each parameter is named once, a name of the new URL has, first, what the parameters
  -- say, a blank value deleting it; then nothing, if the name is to be removed; then the
  -- destination's value; then the current one.
  pub get-url_with_current_query :
      (current destination : Url) (parameters : Parameters) (remove : List String) (name : String)
      → NodupKeys parameters
      → get name (url_with_current_query show current destination parameters remove).search_params
        ≡ overridden (lookup name parameters) (
            if contains remove name
            then none
            else or_else (get name destination.search_params) (get name current.search_params))
  unfolding url_with_current_query
  get-url_with_current_query current destination parameters remove name u =
      let filled = fill current.search_params destination.search_params in
      ground (
        arith,
        get-put_all name parameters (remove_all remove filled) u,
        get-remove_all name remove filled,
        get-fill name current.search_params destination.search_params,
      )
