-- ===== src/Query/Address.antt =====
-- resources/js/lib/url-query.ts, on addresses as texts. What the platform makes of them is a parameter. An address
-- is relative to the page's origin, which neither the page nor a replacement changes.
use horizon_new_dawn.Base.{
  String, ◌<>◌, Option, none, some, List, [], if◌then◌else◌, ◌==◌, string_eq,
}
use horizon_new_dawn.Base.Int.{ℤ}
use horizon_new_dawn.Query.Params.{Params}
use horizon_new_dawn.Query.Merge.{Parameters, Url, url_with_current_query}

-- The platform's URLs: `new URL(address, origin)`, its `search` as it was parsed, and its `search` once its
-- parameters have been changed.
pub record Platform : Type 0 where
  pub parse : String → Url
  pub search : String → String
  pub show_search : Params → String

module _ (p : Platform) where
  -- `relativeUrl`, of a URL with the text of its search.
  unfoldable pub relative_url : Url → String → String
  relative_url url search = url.pathname <> (search <> url.hash)

  -- `relativeUrl(currentUrl())`, where `address` is the window's.
  unfoldable pub relative_address : String → String
  unfolding relative_url
  relative_address address = relative_url (p.parse address) (p.search address)

module _ (show : ℤ → String) (p : Platform) where
  -- `urlWithCurrentQuery`: it parses the destination, and merges the queries.
  unfoldable pub address_with_current_query : String → String → Parameters → List String → String
  unfolding relative_url
  address_with_current_query address destination parameters remove =
      let url =
        url_with_current_query show (p.parse address) (p.parse destination) parameters remove in
      relative_url p url (p.show_search url.search_params)

  -- `currentUrlWithQuery`
  unfoldable pub current_address_with_query : String → Parameters → List String → String
  unfolding address_with_current_query relative_address
  current_address_with_query address parameters remove =
      address_with_current_query address (relative_address p address) parameters remove

  -- `replaceCurrentQuery`, in a browser: the address that the router is given, if it differs.
  unfoldable pub replace_current_query : String → Parameters → Option String
  unfolding current_address_with_query relative_address
  replace_current_query address parameters =
      let url = current_address_with_query address parameters [] in
      if url == relative_address p address then none else some url

-- The window's address once the router has replaced it, if it was asked to.
abbrev pub replaced : String → Option String → String
replaced address none = address
replaced address (some url) = url
