-- ===== src/Queues/Overview.antt =====
-- resources/js/components/queues/queue-overview.tsx: the values that are shown, and the view with its chart,
-- which is loaded when it is needed. resources/js/lib/live-pending-total.ts.
use horizon_new_dawn.Base.{
  ℕ, ◌+◌, String, ◌<>◌, Bool, true, false, not, ◌&&◌, ◌≡◌, refl, ◌⊎◌, inl, inr, Option, none, some,
  List, [], ◌∷◌, ◌++◌, arith, if◌then◌else◌, All, All-append, by_test,
}

-- `livePendingTotal`
unfoldable pub live_pending_total : Option ℕ → Option ℕ → Option ℕ → Option ℕ
live_pending_total (some reserved) (some ready) (some delayed) = some (reserved + ready + delayed)
live_pending_total reserved ready delayed = none

-- What `retainedValue` returns: a text, or the number itself.
pub data Retained : Type 0 where
  text : String → Retained
  exact : ℕ → Retained

unfoldable pub retained_value : (ℕ → String) → Option ℕ → Bool → Retained
retained_value format none complete = text "—"
retained_value format (some value) complete =
    if complete then exact value else text (format value <> "+")

pub data View : Type 0 where
  overview metrics : View

abbrev pub same_view : View → View → Bool
same_view overview overview = true
same_view metrics metrics = true
same_view a b = false

-- `metricChartPromise` and `loadedMetricChart`, the view of the props, the visits that wait for the chart, and
-- those that were made.
pub record Overview : Type 0 where
  pub requested : Bool
  pub loaded : Bool
  pub view : View
  pub waiting : List View
  pub visits : List View

-- `loadMetricChart`: the import is made once.
unfoldable pub load_metric_chart : Overview → Overview
load_metric_chart o = record o { requested = true }

-- `loadMetricChart().then(visit)`: the visit is made when the chart is there, or at once.
unfoldable pub load_then_visit : View → Overview → Overview
unfolding load_metric_chart
load_then_visit next o =
    let asked = load_metric_chart o in
    if o.loaded
    then record asked { visits = o.visits ++ (next ∷ []) }
    else record asked { waiting = o.waiting ++ (next ∷ []) }

abbrev pub is_metrics : View → Bool
is_metrics metrics = true
is_metrics overview = false

unfoldable pub select_view : Option View → Overview → Overview
unfolding load_then_visit
select_view none o = o
select_view (some next) o =
    let visited = record o { visits = o.visits ++ (next ∷ []) } in
    if same_view next o.view
    then o
    else if is_metrics next && not o.loaded
    then load_then_visit next o
    else visited

-- A click on the link of the metrics: with the chart, the link itself makes the visit.
unfoldable pub click_metrics : Overview → Overview
unfolding load_then_visit
click_metrics o =
    if o.loaded then record o { visits = o.visits ++ (metrics ∷ []) } else load_then_visit metrics o

-- The import succeeds: the waiting visits are made in their order.
unfoldable pub on_loaded : Overview → Overview
on_loaded o = record o { loaded = true; waiting = []; visits = o.visits ++ o.waiting }

pub data Event : Type 0 where
  select : Option View → Event
  click hover arrive : Event
  show : View → Event

-- An import arrives only if it was requested. The view of the metrics loads the chart that it renders.
unfoldable pub step : Event → Overview → Overview
unfolding select_view click_metrics on_loaded load_metric_chart
step (select next) o = select_view next o
step click o = click_metrics o
step hover o = load_metric_chart o
step arrive o = if o.requested then on_loaded o else o
step (show view) o =
    let shown = record o { view = view } in
    if is_metrics view then load_metric_chart shown else shown

unfoldable pub run : List Event → Overview → Overview
unfolding step
run [] o = o
run (e ∷ es) o = run es (step e o)

abbrev pub IsOverview : View → Type 0
IsOverview view = is_metrics view ≡ false

abbrev pub has_some : List View → Bool
has_some [] = false
has_some (v ∷ vs) = true

-- With the chart no visit waits; without it visits wait only for a chart that was requested, and none was made
-- to the metrics.
abbrev pub Waits : Overview → Type 0
Waits o =
    (o.loaded ≡ true) × (o.waiting ≡ [])
    ⊎ (o.loaded ≡ false) × (has_some o.waiting && not o.requested ≡ false) × All IsOverview o.visits

load-Waits : (o : Overview) → Waits o → Waits (load_metric_chart o)
unfolding load_metric_chart
load-Waits o (inl w) = inl w
load-Waits o (inr (absent, asked, visits)) = inr (absent, ground arith, visits)

load_then_visit-Waits : (next : View) (o : Overview) → Waits o → Waits (load_then_visit next o)
unfolding load_then_visit load_metric_chart
load_then_visit-Waits next o (inl (there, none_waits)) = rw there (inl (refl, none_waits))
load_then_visit-Waits next o (inr (absent, asked, visits)) =
    rw absent (inr (refl, ground arith, visits))

visit-Waits :
    (next : View) (o : Overview)
    → is_metrics next && not o.loaded ≡ false
    → Waits o
    → Waits (record o { visits = o.visits ++ (next ∷ []) })
visit-Waits next o h (inl (there, none_waits)) = inl (there, none_waits)
visit-Waits next o h (inr (absent, asked, visits)) =
    inr (absent, asked, All-append IsOverview o.visits (next ∷ []) visits (ground arith, tt))

step-Waits : (e : Event) (o : Overview) → Waits o → Waits (step e o)
unfolding step select_view click_metrics on_loaded load_metric_chart
step-Waits (select none) o w = w
step-Waits (select (some next)) o w =
    by_test Waits (same_view next o.view) (λ same. w)
      λ other.
        by_test Waits (is_metrics next && not o.loaded) (λ load. load_then_visit-Waits next o w)
          λ free. visit-Waits next o free w
step-Waits click o w =
    by_test Waits o.loaded (λ there. visit-Waits metrics o (ground arith) w)
      λ absent. load_then_visit-Waits metrics o w
step-Waits hover o w = load-Waits o w
step-Waits arrive o w = by_test Waits o.requested (λ asked. inl (refl, refl)) (λ unasked. w)
step-Waits (show view) o w =
    by_test Waits (is_metrics view) (λ needed. load-Waits (record o { view = view }) w) (λ other. w)

-- From a page where this holds, whatever is clicked and pointed at and whenever the chart arrives: while the chart
-- is not there, no visit to the metrics is made and a visit waits only if the chart was asked for; once it is
-- there, no visit waits.
pub run-Waits : (es : List Event) (o : Overview) → Waits o → Waits (run es o)
unfolding run
run-Waits [] o w = w
run-Waits (e ∷ es) o w = run-Waits es (step e o) (step-Waits e o w)
