-- ===== src/Query/Merge.antt =====
-- resources/js/lib/url-query.ts. A URL is taken apart as the platform parses it: `new URL` and the
-- serialisation of a URL are parameters. `String(number)` is one too.
use horizon_new_dawn.Base.{
  String, Option, none, some, List, [], ◌∷◌, if◌then◌else◌, ◌==◌, string_eq,
}
use horizon_new_dawn.Base.Int.{ℤ}
use horizon_new_dawn.Query.Params.{Params, get, has, delete, set}

pub data QueryParameterValue : Type 0 where
  text : String → QueryParameterValue
  number : ℤ → QueryParameterValue
  null undefined : QueryParameterValue

abbrev pub Parameters : Type 0
Parameters = List (String × QueryParameterValue)

pub record Url : Type 0 where
  pub pathname : String
  pub search_params : Params
  pub hash : String

-- `source.searchParams.forEach`: a name that the destination lacks is given the value.
unfoldable pub fill : Params → Params → Params
fill [] url = url
fill ((name, value) ∷ source) url = fill source (if has name url then url else set name value url)

unfoldable pub remove_all : List String → Params → Params
remove_all [] url = url
remove_all (name ∷ names) url = remove_all names (delete name url)

module _ (show : ℤ → String) where
  -- The value that is set, or none if the name is deleted.
  abbrev pub to_set : QueryParameterValue → Option String
  to_set (text s) = if s == "" then none else some s
  to_set (number n) = some (show n)
  to_set null = none
  to_set undefined = none

  unfoldable pub put : String → QueryParameterValue → Params → Params
  put name value url = elim (to_set value) [ none ↦ delete name url | some v ↦ set name v url ]

  -- `Object.entries(parameters).forEach`
  unfoldable pub put_all : Parameters → Params → Params
  put_all [] url = url
  put_all ((name, value) ∷ rest) url = put_all rest (put name value url)

  -- `urlWithCurrentQuery`, from the current URL and the parsed destination.
  unfoldable pub url_with_current_query : Url → Url → Parameters → List String → Url
  url_with_current_query current destination parameters remove = record destination {
    search_params =
        put_all parameters
          (remove_all remove (fill current.search_params destination.search_params));
  }

-- `currentQueryParameter`: without a window there is none.
unfoldable pub current_query_parameter : Option Url → String → Option String
current_query_parameter none name = none
current_query_parameter (some url) name = get name url.search_params
