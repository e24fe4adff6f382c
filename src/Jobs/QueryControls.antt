-- ===== src/Jobs/QueryControls.antt =====
-- resources/js/hooks/use-job-query-controls.ts, with the filter types of resources/js/types/jobs.ts
-- and the filter keys of resources/js/components/jobs/job-filters.tsx. `JSON.stringify` is only
-- compared with itself, on arrays of texts and nulls that it tells apart: a signature is the array.
use horizon_new_dawn.Base.{
  ℕ, String, Bool, true, false, not, ◌&&◌, ◌||◌, Option, none, some, List, [], ◌∷◌, if◌then◌else◌,
  ◌==◌, option_eq, string_eq, keep, length,
}
use horizon_new_dawn.Jobs.Trim.{trim}

pub data JobFilterKey : Type 0 where
  job queue connection state : JobFilterKey

pub record JobFilterValues : Type 0 where
  pub job : Option String
  pub queue : Option String
  pub connection : Option String
  pub state : Option String

abbrev pub empty_job_filter_values : JobFilterValues
empty_job_filter_values = record { job = none; queue = none; connection = none; state = none }

pub data JobScope : Type 0 where
  pending failed completed silenced : JobScope

-- `jobFilterKeys`
unfoldable pub job_filter_keys : JobScope → List JobFilterKey
job_filter_keys pending = job ∷ queue ∷ connection ∷ state ∷ []
job_filter_keys failed = job ∷ queue ∷ connection ∷ []
job_filter_keys completed = job ∷ queue ∷ connection ∷ []
job_filter_keys silenced = job ∷ queue ∷ connection ∷ []

-- `values[filterKey]` and `{ ...values, [filterKey]: value }`.
abbrev pub value_at : JobFilterKey → JobFilterValues → Option String
value_at job f = f.job
value_at queue f = f.queue
value_at connection f = f.connection
value_at state f = f.state

abbrev pub with_value : JobFilterKey → Option String → JobFilterValues → JobFilterValues
with_value job v f = record f { job = v }
with_value queue v f = record f { queue = v }
with_value connection v f = record f { connection = v }
with_value state v f = record f { state = v }

unfoldable pub filters_equal : JobFilterValues → JobFilterValues → Bool
filters_equal l r =
    (l.job == r.job)
    && (l.queue == r.queue)
    && (l.connection == r.connection)
    && (l.state == r.state)

pub record Signature : Type 0 where
  pub query : String
  pub filters : JobFilterValues

abbrev pub query_state_signature : String → JobFilterValues → Signature
query_state_signature query filters = record { query = query; filters = filters }

unfoldable pub same_signature : Signature → Signature → Bool
unfolding filters_equal
same_signature a b = (a.query == b.query) && filters_equal a.filters b.filters

pub record Controls : Type 0 where
  -- React state
  pub search : String
  pub selected_filters : JobFilterValues
  -- refs
  pub search_ref : String
  pub selected_filters_ref : JobFilterValues
  pub last_committed_query : String
  pub last_committed_filters : JobFilterValues
  pub last_submitted : Signature
  -- the debounce timer, with the arguments in its closure
  pub timer : Option Signature
  -- the calls of `onSubmit`, the latest first
  pub submissions : List Signature

unfoldable pub initial : String → JobFilterValues → Controls
initial query filters = record {
  search = query;
  selected_filters = filters;
  search_ref = query;
  selected_filters_ref = filters;
  last_committed_query = query;
  last_committed_filters = filters;
  last_submitted = query_state_signature query filters;
  timer = none;
  submissions = [];
}

-- The effect on `query`: text that is being typed is not overwritten.
unfoldable pub query_effect : String → Controls → Controls
query_effect query c =
    if trim c.search_ref == c.last_committed_query
    then record c { search_ref = query; search = query; last_committed_query = query }
    else record c { last_committed_query = query }

-- The effect on `filters`.
unfoldable pub filters_effect : JobFilterValues → Controls → Controls
filters_effect filters c =
    if filters_equal c.selected_filters_ref c.last_committed_filters
      || filters_equal c.selected_filters_ref filters
    then record c {
      selected_filters_ref = filters;
      selected_filters = filters;
      last_committed_filters = filters;
    }
    else record c { last_committed_filters = filters }

unfoldable pub submit : Signature → Controls → Controls
submit s c = record c { last_submitted = s; submissions = s ∷ c.submissions }

-- The debounce effect of a render with the props `query` and `filters`: the old timer is cleared.
unfoldable pub debounce_effect : String → JobFilterValues → Controls → Controls
debounce_effect query filters c =
    let next = query_state_signature (trim c.search) c.selected_filters in
    if same_signature next (query_state_signature query filters)
      || same_signature next c.last_submitted
    then record c { timer = none }
    else record c { timer = some next }

-- The timer fires.
unfoldable pub fire : Option Signature → Controls → Controls
unfolding submit
fire none c = c
fire (some s) c = submit s (record c { timer = none })

unfoldable pub on_timer : Controls → Controls
unfolding fire
on_timer c = fire c.timer c

unfoldable pub set_search : String → Controls → Controls
set_search value c = record c { search_ref = value; search = value }

unfoldable pub set_filters : JobFilterValues → Controls → Controls
unfolding submit
set_filters filters c =
    submit (query_state_signature (trim c.search_ref) filters)
      (record c { selected_filters_ref = filters; selected_filters = filters })

unfoldable pub set_filter_value : JobFilterKey → Option String → Controls → Controls
unfolding set_filters
set_filter_value key value c = set_filters (with_value key value c.selected_filters_ref) c

unfoldable pub clear_filters : Controls → Controls
unfolding set_filters
clear_filters c = set_filters empty_job_filter_values c

unfoldable pub is_committed : String → JobFilterValues → Controls → Bool
is_committed query filters c =
    same_signature (query_state_signature (trim c.search) c.selected_filters)
      (query_state_signature query filters)

-- A render with the props `query` and `filters`, of which the flags say which are new: the effects in
-- their order. (The debounce effect's dependencies are what it reads, but for the last submission:
-- where none has changed since it ran, it would set the same timer again.)
unfoldable pub render : Bool → Bool → String → JobFilterValues → Controls → Controls
unfolding query_effect filters_effect debounce_effect
render new_query new_filters query filters c =
    let c' = if new_query then query_effect query c else c in
    let c'' = if new_filters then filters_effect filters c' else c' in
    debounce_effect query filters c''

-- What the user, the timer and the server do, each followed by a render.
pub data Event : Type 0 where
  type_search : String → Event
  choose : JobFilterKey → Option String → Event
  clear : Event
  elapse : Event
  props : String → JobFilterValues → Event

pub record Page : Type 0 where
  pub controls : Controls
  pub query : String
  pub filters : JobFilterValues

unfoldable pub step : Page → Event → Page
unfolding render set_search set_filter_value clear_filters on_timer
step p (type_search value) = record p {
  controls = render false false p.query p.filters (set_search value p.controls);
}
step p (choose key value) = record p {
  controls = render false false p.query p.filters (set_filter_value key value p.controls);
}
step p clear = record p {
  controls = render false false p.query p.filters (clear_filters p.controls);
}
step p elapse = record p { controls = render false false p.query p.filters (on_timer p.controls) }
step p (props query filters) = record {
  controls = render (not (query == p.query)) true query filters p.controls;
  query = query;
  filters = filters;
}

unfoldable pub run : Page → List Event → Page
run p [] = p
run p (e ∷ es) = run (step p e) es

-- `activeFilterCount` of `JobFilters`.
abbrev pub is_set : Option String → Bool
is_set none = false
is_set (some v) = true

unfoldable pub active_filter_count : List JobFilterKey → JobFilterValues → ℕ
active_filter_count keys values = length (keep (λ key. is_set (value_at key values)) keys)
