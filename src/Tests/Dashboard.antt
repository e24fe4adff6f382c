-- ===== src/Tests/Dashboard.antt =====
-- Pools, sorts, the search of the batches and a queue's views (resources/js/components/dashboard/
-- workload-table.tsx, resources/js/hooks/use-sortable-rows.ts, resources/js/pages/batches/index.tsx,
-- resources/js/components/queues/queue-overview.tsx).
use horizon_new_dawn.Base.{
  ℕ, String, ◌<>◌, true, false, not, ◌&&◌, ◌≡◌, refl, inr, none, some, List, [], ◌∷◌, if◌then◌else◌,
  ◌==◌, string_eq, nat_eq, any, all, keep, length, contains, Distinct,
}
use horizon_new_dawn.Base.Int.{ℤ, pos}
use horizon_new_dawn.Query.Params.{Params, has, set}
use horizon_new_dawn.Query.Address
use horizon_new_dawn.Query.Merge.{
  current_query_parameter, url_with_current_query, fill, remove_all, put_all, put,
}
use horizon_new_dawn.Sorting.Rows.{
  SortColumn, SortState, asc, has_column, initial_sort, toggle, query_parameter_names,
}
use horizon_new_dawn.Sorting.Rows
use horizon_new_dawn.Sorting.Persisted.{toggled_address, sort_parameters}
use horizon_new_dawn.Sorting.Reload.{own_address, text_of, with_sort, initial_sort-toggled_address}
use horizon_new_dawn.Workload.Pools.{
  pool_queues, full_name, format_pool_label, pool_queues-format_pool_label,
}
use horizon_new_dawn.Workload.Rows.{
  Item, exceeded, within_bounds, badge, is_exceeded, or_empty, threshold_badge,
  queue_wait_threshold_cell, threshold_badge_lem,
}
use horizon_new_dawn.Batches.Search
use horizon_new_dawn.Batches.Search.{Filters, IsSettled, mount, run-IsSettled, mount-IsSettled}
use horizon_new_dawn.Batches.Options.{batch_filter_options, with_active, batch_filter_options_lem}
use horizon_new_dawn.Queues.Overview
use horizon_new_dawn.Queues.Activity
use horizon_new_dawn.Queues.Activity.{Hover, failed, silenced, IsAttended, run-IsAttended}
use horizon_new_dawn.Routes.Resolve.{
  Platform, is_horizon_path, generated_base_path, without_slashes, starts_with,
  resolve_horizon_route, IsSuffix, resolve_relocates,
}
use horizon_new_dawn.Queues.Overview.{Overview, overview, metrics, Waits, run-Waits}

abbrev any_text : ℤ → String
any_text n = "0"

abbrev digits : ℕ → String
digits n = "2"

abbrev name_column : SortColumn String
name_column = record { key = "name"; value = λ row. Rows.text row }

abbrev sorted_text : String
sorted_text = "?tab=pending&workload_sort=name&workload_direction=desc"

abbrev sorted_address : String
sorted_address = "/horizon?tab=pending&workload_sort=name&workload_direction=desc"

abbrev plain_query : Params
plain_query = ("tab", "pending") ∷ []

abbrev sorted_query : Params
sorted_query = ("tab", "pending") ∷ ("workload_sort", "name") ∷ ("workload_direction", "desc") ∷ []

-- A platform that reads two addresses.
abbrev browser : Address.Platform
browser = record {
  parse = λ s. record {
    pathname = "/horizon";
    search_params = if s == sorted_address then sorted_query else plain_query;
    hash = "";
  };
  search = λ s. if s == sorted_address then sorted_text else "?tab=pending";
  show_search = λ params. if has "workload_sort" params then sorted_text else "?tab=pending";
}

abbrev address : String
address = "/horizon?tab=pending"

abbrev by_name : SortState
by_name = record { key = "name"; direction = asc }

abbrev chosen : String
chosen = "name"

name_named : (chosen == "") ≡ false
unfolding string_eq
name_named = refl

name_column_there : has_column (name_column ∷ []) "name" ≡ true
unfolding any string_eq
name_column_there = refl

address_read_again :
    (browser.parse (own_address browser address)).search_params
    ≡ (browser.parse address).search_params
unfolding string_eq
address_read_again = refl

sorted_read_again :
    let url = with_sort any_text browser (some "workload") address (toggle "name" (some by_name)) in
    (browser.parse (text_of browser url)).search_params ≡ url.search_params
unfolding url_with_current_query sort_parameters query_parameter_names toggle fill remove_all
    put_all put has set string_eq
sorted_read_again = refl

initial_sort-toggled_address_example :
    let next = toggle "name" (some by_name) in
    initial_sort (name_column ∷ []) true (some "workload") none (
      current_query_parameter (
        some
          (browser.parse (toggled_address any_text browser true (some "workload") next address))))
    ≡ some next
initial_sort-toggled_address_example =
    initial_sort-toggled_address (name_column ∷ []) any_text browser (some "workload") none address
      "name" (some by_name) name_named name_column_there address_read_again sorted_read_again

pool_queues-format_pool_label_example :
    pool_queues (full_name (format_pool_label digits "high, default ,,low,mail"))
    ≡ pool_queues "high, default ,,low,mail"
pool_queues-format_pool_label_example =
    pool_queues-format_pool_label digits "high, default ,,low,mail"

abbrev pool : Item
pool = record {
  name = "high,low";
  wait = 3;
  ready = 4;
  status = some exceeded;
  split_queues = some (
      record { name = "high"; wait = 3; ready = 4; status = some exceeded }
      ∷ record { name = "low"; wait = 0; ready = 0; status = some within_bounds }
      ∷ []);
}

threshold_badge_lem_example :
    let queues = or_empty pool.split_queues in
    threshold_badge digits pool ≡ (
      if any is_exceeded queues
      then badge exceeded (
          if all is_exceeded queues
          then "All exceeded"
          else digits (length (keep is_exceeded queues)) <> " exceeded")
      else queue_wait_threshold_cell pool.status none)
threshold_badge_lem_example = threshold_badge_lem digits pool

abbrev no_filters : Filters
no_filters = record {
  queue = none;
  connection = none;
  created = none;
  status = "all";
  sort = "createdAt";
  direction = "desc";
}

abbrev searching : List Search.Event
searching =
    Search.typed " import"
    ∷ Search.typed " import "
    ∷ Search.timeout
    ∷ Search.sorted "name"
    ∷ Search.received "import" no_filters
    ∷ []

run-IsSettled_example : IsSettled (Search.run searching (mount "" no_filters))
run-IsSettled_example =
    run-IsSettled searching (mount "" no_filters) (mount-IsSettled "" no_filters)

abbrev as_given : String → String → ℤ
as_given a b = pos 0

batch_filter_options_lem_example :
    Distinct (batch_filter_options as_given ("default" ∷ "" ∷ "default" ∷ []) (some "mail"))
    × ((value : String)
        → contains
            (batch_filter_options as_given ("default" ∷ "" ∷ "default" ∷ []) (some "mail"))
            value
          ≡ contains (with_active ("default" ∷ "" ∷ "default" ∷ []) (some "mail")) value
            && not (value == ""))
batch_filter_options_lem_example =
    batch_filter_options_lem as_given ("default" ∷ "" ∷ "default" ∷ []) (some "mail")

abbrev fresh_page : Overview
fresh_page = record {
  requested = false;
  loaded = false;
  view = overview;
  waiting = [];
  visits = [];
}

abbrev opening_metrics : List Overview.Event
opening_metrics =
    Overview.select (some metrics) ∷ Overview.click ∷ Overview.arrive ∷ Overview.show metrics ∷ []

run-Waits_example : Waits (Overview.run opening_metrics fresh_page)
run-Waits_example = run-Waits opening_metrics fresh_page (inr (refl, refl, tt))

-- Paths are URLs of their own.
abbrev paths : Platform
paths = record {
  parse = λ s. record { origin = ""; pathname = s; search = ""; hash = "" };
  can_parse = λ s. false;
  show = λ url. url.pathname;
  assigned = λ s. if s == "" then "/" else s;
}

queue_is_horizon_path :
    is_horizon_path (generated_base_path paths "/horizon/") "/horizon/queues" ≡ true
unfolding is_horizon_path without_slashes starts_with string_eq nat_eq
queue_is_horizon_path = refl

resolve_relocates_example :
    let route = paths.parse "/horizon/queues" in
    let base = paths.parse "/admin/horizon/" in
    (suffix : String) × (route.pathname ≡ generated_base_path paths "/horizon/" <> suffix)
    × IsSuffix suffix
    × let pathname = paths.assigned (without_slashes base.pathname <> suffix) in
      (resolve_horizon_route paths "/horizon/" "/horizon/queues" "/admin/horizon/"
        ≡ some (
            if paths.can_parse "/admin/horizon/"
            then paths.show
                (record base { pathname = pathname; search = route.search; hash = route.hash })
            else pathname <> (route.search <> route.hash)))
resolve_relocates_example =
    resolve_relocates paths "/horizon/" "/horizon/queues" "/admin/horizon/" queue_is_horizon_path

abbrev still : Hover
still = record { timeout = none; pointer = none; focus = none; prefetched = []; visited = [] }

abbrev passing : List Activity.Event
passing =
    Activity.enter failed
    ∷ Activity.leave failed
    ∷ Activity.enter silenced
    ∷ Activity.elapse
    ∷ Activity.focused failed
    ∷ Activity.click silenced
    ∷ []

run-IsAttended_example : IsAttended (Activity.run passing still)
run-IsAttended_example = run-IsAttended passing still (tt, tt)
