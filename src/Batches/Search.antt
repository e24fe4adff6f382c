-- ===== src/Batches/Search.antt =====
-- `BatchesIndexContent` of resources/js/pages/batches/index.tsx: the search with its delay, and the visits for
-- filters, status and sort. The effect runs in the render that follows each event.
use horizon_new_dawn.Base.{
  String, Bool, true, false, not, ◌&&◌, ◌||◌, ◌≡◌, refl, ap, ◌∙◌, ◌⊎◌, inl, inr, Option, none, some,
  List, [], ◌∷◌, if◌then◌else◌, ◌==◌, string_eq, option_eq, ==-cases, by_test,
}
use horizon_new_dawn.Jobs.Trim.{trim}

pub record Filters : Type 0 where
  pub queue : Option String
  pub connection : Option String
  pub created : Option String
  pub status : String
  pub sort : String
  pub direction : String

-- The parameters of a visit, each with its value or null. Every visit also removes `before_id`.
abbrev pub Parameters : Type 0
Parameters = List (String × Option String)

-- The props, the state, the timeout with the value of its closure, and the visits, the latest first.
pub record Page : Type 0 where
  pub query : String
  pub filters : Filters
  pub search : String
  pub timer : Option String
  pub visits : List Parameters

-- The effect on the query and the search: an earlier timeout is cleared.
unfoldable pub search_effect : Page → Page
unfolding trim
search_effect p =
    let value = trim p.search in record p { timer = if value == p.query then none else some value }

unfoldable pub mount : String → Filters → Page
unfolding search_effect
mount query filters =
    search_effect
      (record { query = query; filters = filters; search = query; timer = none; visits = [] })

-- `setSearch`: the effect runs if the text has changed.
unfoldable pub set_search : String → Page → Page
unfolding search_effect
set_search text p = if p.search == text then p else search_effect (record p { search = text })

-- New props: the effect runs if the query has changed.
unfoldable pub receive : String → Filters → Page → Page
unfolding search_effect
receive query filters p =
    let next = record p { query = query; filters = filters } in
    if p.query == query then next else search_effect next

abbrev pub visit : Parameters → Page → Page
visit parameters p = record p { visits = parameters ∷ p.visits }

abbrev pub submit : Option String → Page → Page
submit none p = p
submit (some value) p = record p { timer = none; visits = (("query", some value) ∷ []) ∷ p.visits }

-- The timeout fires, if it runs.
unfoldable pub on_timeout : Page → Page
on_timeout p = submit p.timer p

unfoldable pub update_filters : Option String → Option String → Option String → Page → Page
update_filters queue connection created p =
    visit (("queue", queue) ∷ ("connection", connection) ∷ ("created", created) ∷ []) p

unfoldable pub update_status : String → Page → Page
update_status status p = visit (("status", some status) ∷ []) p

-- The tabs' guard.
unfoldable pub select_status : Option String → Page → Page
unfolding update_status
select_status none p = p
select_status (some status) p =
    if not (status == "all") && not (status == p.filters.status) then update_status status p else p

unfoldable pub update_sort : String → Page → Page
update_sort sort p =
    let direction =
      if (p.filters.sort == sort) && (p.filters.direction == "asc") then "desc" else "asc" in
    visit (("sort", some sort) ∷ ("direction", some direction) ∷ []) p

-- Whether `useAutoLoad` polls.
unfoldable pub polling : Page → Bool
unfolding trim
polling p = trim p.search == p.query

unfoldable pub has_active_query : Page → Bool
has_active_query p =
    not (p.query == "")
    || not (p.filters.queue == none)
    || not (p.filters.connection == none)
    || not (p.filters.created == none)

pub data Event : Type 0 where
  typed : String → Event
  received : String → Filters → Event
  timeout : Event
  filtered : Option String → Option String → Option String → Event
  status_selected : Option String → Event
  tab_changed : String → Event
  sorted : String → Event

unfoldable pub step : Event → Page → Page
unfolding set_search receive on_timeout update_filters update_status select_status update_sort
step (typed text) p = set_search text p
step (received query filters) p = receive query filters p
step timeout p = on_timeout p
step (filtered queue connection created) p = update_filters queue connection created p
step (status_selected status) p = select_status status p
step (tab_changed status) p = update_status status p
step (sorted sort) p = update_sort sort p

unfoldable pub run : List Event → Page → Page
unfolding step
run [] p = p
run (e ∷ es) p = run es (step e p)

-- The latest visit for a query, from the visits.
abbrev pub query_of : Parameters → Option String
query_of ((name, value) ∷ []) = if name == "query" then value else none
query_of parameters = none

abbrev pub or_earlier : Option String → Option String → Option String
or_earlier none earlier = earlier
or_earlier (some q) earlier = some q

unfoldable pub last_submitted : List Parameters → Option String
last_submitted [] = none
last_submitted (v ∷ vs) = or_earlier (query_of v) (last_submitted vs)

-- What the user sees: the query of the server, or it waits, or it was submitted last.
abbrev pub Settled : String → String → Option String → List Parameters → Type 0
Settled text query (some value) visits = (value ≡ text) × ((text == query) ≡ false)
Settled text query none visits = ((text == query) ≡ true) ⊎ (last_submitted visits ≡ some text)

abbrev pub IsSettled : Page → Type 0
IsSettled p = Settled (trim p.search) p.query p.timer p.visits

search_effect-IsSettled : (p : Page) → IsSettled (search_effect p)
unfolding search_effect
search_effect-IsSettled p =
    by_test (λ timer. Settled (trim p.search) p.query timer p.visits) (trim p.search == p.query)
      (λ same. inl same) (λ other. (refl, other))

-- A visit that is for no query keeps what was submitted.
kept :
    (text query : String) (timer : Option String) (v : Parameters) (visits : List Parameters)
    → query_of v ≡ none
    → Settled text query timer visits
    → Settled text query timer (v ∷ visits)
unfolding last_submitted
kept text query (some value) v visits h c = c
kept text query none v visits h (inl same) = inl same
kept text query none v visits h (inr submitted) =
    inr (ap (λ q. or_earlier q (last_submitted visits)) h ∙ submitted)

submitted_query : (value : String) → query_of (("query", some value) ∷ []) ≡ some value
unfolding string_eq
submitted_query value = refl

on_timeout-IsSettled : (p : Page) → IsSettled p → IsSettled (on_timeout p)
unfolding on_timeout last_submitted
on_timeout-IsSettled p c = submitted p.timer refl c
  where
    submitted :
        (timer : Option String)
        → p.timer ≡ timer
        → Settled (trim p.search) p.query timer p.visits
        → IsSettled (submit timer p)
    submitted none e c = rw e c
    submitted (some value) e (same, other) =
        inr
          (ap (λ q. or_earlier q (last_submitted p.visits)) (submitted_query value) ∙ ap some same)

received-IsSettled :
    (query : String) (filters : Filters) (p : Page)
    → IsSettled p
    → IsSettled (receive query filters p)
unfolding receive
received-IsSettled query filters p c = elim (==-cases p.query query) [
  | inl (t, same) ↦ rw t (rw (← same) c)
  | inr (f, _) ↦ rw f (search_effect-IsSettled (record p { query = query; filters = filters }))
]

step-IsSettled : (e : Event) (p : Page) → IsSettled p → IsSettled (step e p)
unfolding step set_search receive update_filters select_status update_status update_sort string_eq
step-IsSettled (typed text) p c =
    by_test IsSettled (p.search == text) (λ same. c)
      (λ other. search_effect-IsSettled (record p { search = text }))
step-IsSettled (received query filters) p c = received-IsSettled query filters p c
step-IsSettled timeout p c = on_timeout-IsSettled p c
step-IsSettled (filtered queue connection created) p c =
    kept (trim p.search) p.query p.timer _ p.visits refl c
step-IsSettled (status_selected none) p c = c
step-IsSettled (status_selected (some status)) p c =
    by_test IsSettled (not (status == "all") && not (status == p.filters.status))
      (λ new. kept (trim p.search) p.query p.timer _ p.visits refl c) (λ old. c)
step-IsSettled (tab_changed status) p c = kept (trim p.search) p.query p.timer _ p.visits refl c
step-IsSettled (sorted sort) p c = kept (trim p.search) p.query p.timer _ p.visits refl c

-- From a page where this holds, whatever the user types or chooses, whatever props arrive and whenever the
-- timeout fires: a running timeout will submit the trimmed text, and without one the text is the server's query
-- or was submitted last.
pub run-IsSettled : (es : List Event) (p : Page) → IsSettled p → IsSettled (run es p)
unfolding run
run-IsSettled [] p c = c
run-IsSettled (e ∷ es) p c = run-IsSettled es (step e p) (step-IsSettled e p c)

pub mount-IsSettled : (query : String) (filters : Filters) → IsSettled (mount query filters)
unfolding mount
mount-IsSettled query filters =
    search_effect-IsSettled
      (record { query = query; filters = filters; search = query; timer = none; visits = [] })
