-- ===== src/Jobs/Catalog.antt =====
-- resources/js/hooks/use-job-filter-catalog-refresh.ts. A catalogue and a cancel function are
-- numbers, told apart as objects are. Times are milliseconds. At most one request of the hook is
-- under way, so one variable stands for the `cancelRequest` of its closure.
use horizon_new_dawn.Base.{
  ℕ, ◌+◌, ◌-◌, max, Bool, true, false, ◌&&◌, ◌||◌, Option, none, some, List, [], ◌∷◌, ◌++◌, ltb,
  if◌then◌else◌, ◌==◌, option_eq, nat_eq,
}

abbrev pub minimum_freshness_window : ℕ
minimum_freshness_window = 250

pub record Refresh : Type 0 where
  pub in_flight : Bool
  -- `cancelRequestRef.current`, and the `cancelRequest` of the request under way
  pub cancel_ref : Option ℕ
  pub cancel_request : Option ℕ
  pub catalog : Option ℕ
  pub refreshed_at : ℕ
  -- how many requests were made and finished, and the cancel functions called
  pub reloads : ℕ
  pub finished : ℕ
  pub cancelled : List ℕ

unfoldable pub initial : Option ℕ → ℕ → Refresh
initial catalog now = record {
  in_flight = false;
  cancel_ref = none;
  cancel_request = none;
  catalog = catalog;
  refreshed_at = elim catalog [ none ↦ 0 | some _ ↦ now ];
  reloads = 0;
  finished = 0;
  cancelled = [];
}

-- The effect on `filterCatalog`.
unfoldable pub catalog_effect : Option ℕ → ℕ → Refresh → Refresh
catalog_effect none now r = r
catalog_effect (some c) now r =
    if r.catalog == some c then r else record r { catalog = some c; refreshed_at = now }

called : Option ℕ → List ℕ → List ℕ
called none calls = calls
called (some cancel) calls = calls ++ cancel ∷ []

-- The cleanup on unmount.
unfoldable pub unmount : Refresh → Refresh
unfolding called
unmount r = record r { cancelled = called r.cancel_ref r.cancelled; cancel_ref = none }

unfoldable pub freshness_window : ℕ → ℕ
freshness_window interval = max interval minimum_freshness_window

-- A clock that was set back counts as recent, as a negative difference does.
unfoldable pub refreshed_recently : ℕ → ℕ → Refresh → Bool
unfolding freshness_window
refreshed_recently interval now r =
    ltb 0 r.refreshed_at && ltb (now - r.refreshed_at) (freshness_window interval)

-- The callback that the hook returns.
unfoldable pub refresh : ℕ → ℕ → Refresh → Refresh
unfolding refreshed_recently
refresh interval now r =
    if r.in_flight || refreshed_recently interval now r
    then r
    else record r { in_flight = true; cancel_request = none; reloads = r.reloads + 1 }

unfoldable pub on_cancel_token : ℕ → Refresh → Refresh
on_cancel_token cancel r = record r { cancel_request = some cancel; cancel_ref = some cancel }

unfoldable pub on_success : ℕ → Refresh → Refresh
on_success now r = record r { refreshed_at = now }

unfoldable pub on_finish : Refresh → Refresh
on_finish r = record r {
  cancel_ref = if r.cancel_ref == r.cancel_request then none else r.cancel_ref;
  in_flight = false;
  finished = r.finished + 1;
}

pub data Event : Type 0 where
  catalog_arrives : Option ℕ → Event
  intent : Event
  token : ℕ → Event
  succeed : Event
  finish : Event
  leave : Event

-- The callbacks of a request come while it is under way.
unfoldable pub step : ℕ → Event → ℕ → Refresh → Refresh
unfolding catalog_effect refresh on_cancel_token on_success on_finish unmount
step interval (catalog_arrives c) now r = catalog_effect c now r
step interval intent now r = refresh interval now r
step interval (token cancel) now r = if r.in_flight then on_cancel_token cancel r else r
step interval succeed now r = if r.in_flight then on_success now r else r
step interval finish now r = if r.in_flight then on_finish r else r
step interval leave now r = unmount r

unfoldable pub run : ℕ → List (ℕ × Event) → Refresh → Refresh
run interval [] r = r
run interval ((now, e) ∷ es) r = run interval es (step interval e now r)
