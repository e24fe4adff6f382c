-- ===== src/Polling/AutoLoad.antt =====
-- resources/js/hooks/use-auto-load.ts. Cancel functions are numbers.
use horizon_new_dawn.Base.{
  ℕ, String, Bool, true, false, not, ◌&&◌, ◌||◌, Option, none, some, List, [], ◌∷◌, ◌++◌, ltb,
  if◌then◌else◌, ◌==◌, option_eq, string_eq, nat_eq,
}
use horizon_new_dawn.Polling.Props.{unique, shared_props}

abbrev pub first_page_size : ℕ
first_page_size = 50

pub data EntryReloadMode : Type 0 where
  replace prepend : EntryReloadMode

pub record Props : Type 0 where
  pub enabled : Bool
  pub prop : String
  pub interval : ℕ
  pub list_revision : Option String
  pub additional_props : List String
  pub include_shared_props : Bool
  pub scope : String
  pub polling : Bool
  pub loaded_item_count : ℕ

pub record Loader : Type 0 where
  pub list_revision : Option String
  pub baseline_revision : Option String
  pub scope : String
  pub browsing_history : Bool
  pub poll_cancel : Option ℕ
  pub was_enabled : Bool
  pub has_new_entries : Bool
  -- cancel functions called, in order
  pub cancelled : List ℕ

unfoldable pub initial : Props → Loader
initial p = record {
  list_revision = p.list_revision;
  baseline_revision = p.list_revision;
  scope = p.scope;
  browsing_history = ltb first_page_size p.loaded_item_count;
  poll_cancel = none;
  was_enabled = p.enabled;
  has_new_entries = false;
  cancelled = [];
}

abbrev pub is_defined : Option String → Bool
is_defined none = false
is_defined (some r) = true

-- The effect on `enabled`, `listRevision`, `loadedItemCount` and `scope`.
unfoldable pub sync_effect : Props → Loader → Loader
sync_effect p l =
    let seen = record l { list_revision = p.list_revision } in
    let deep = ltb first_page_size p.loaded_item_count in
    let history = record seen { browsing_history = l.browsing_history || deep } in
    if not (l.scope == p.scope)
    then record seen {
      scope = p.scope;
      browsing_history = deep;
      baseline_revision = p.list_revision;
      has_new_entries = false;
    }
    else if p.enabled
    then record history { baseline_revision = p.list_revision; has_new_entries = false }
    else if is_defined p.list_revision && not (p.list_revision == l.baseline_revision)
    then record history { has_new_entries = true }
    else history

pub record Request : Type 0 where
  pub only : List String
  pub reset : List String
  pub merge_intent_prepend : Bool

abbrev pub entries : Option EntryReloadMode → String → List String
entries none prop = []
entries (some mode) prop = prop ∷ []

abbrev pub reset_props : Option EntryReloadMode → String → List String
reset_props (some replace) prop = prop ∷ []
reset_props _ prop = []

abbrev pub is_prepend : Option EntryReloadMode → Bool
is_prepend (some prepend) = true
is_prepend _ = false

-- The names of the props before `new Set` takes each once.
abbrev pub requested : Props → Option EntryReloadMode → List String
requested p mode =
    entries mode p.prop
    ++ (if is_defined p.list_revision then "listRevision" ∷ [] else [])
    ++ p.additional_props
    ++ (if p.enabled && p.include_shared_props then shared_props else [])

unfoldable pub request_options : Props → Option EntryReloadMode → Request
request_options p mode = record {
  only = unique (requested p mode);
  reset = reset_props mode p.prop;
  merge_intent_prepend = is_prepend mode;
}

-- The callbacks of a request; `cancel_request` is the variable of its closure.
unfoldable pub on_cancel_token : ℕ → Loader → Loader
on_cancel_token cancel l = record l { poll_cancel = some cancel }

unfoldable pub on_finish : Option ℕ → Loader → Loader
on_finish cancel_request l =
    if l.poll_cancel == cancel_request then record l { poll_cancel = none } else l

abbrev pub called : Option ℕ → List ℕ → List ℕ
called none calls = calls
called (some cancel) calls = calls ++ cancel ∷ []

unfoldable pub cancel_active_poll : Loader → Loader
cancel_active_poll l = record l { cancelled = called l.poll_cancel l.cancelled; poll_cancel = none }

unfoldable pub on_before_next_page : Loader → Loader
unfolding cancel_active_poll
on_before_next_page l = record (cancel_active_poll l) { browsing_history = true }

-- `loadNewEntries`: the request, and its success with the page's `listRevision`.
unfoldable pub load_new_entries : Props → Loader → Loader × Request
unfolding cancel_active_poll
load_new_entries p l = (cancel_active_poll l, request_options p (some replace))

abbrev pub refreshed : Option String → Option String → Option String
refreshed (some r) before = some r
refreshed none before = before

unfoldable pub on_load_success : Option String → Loader → Loader
on_load_success page_revision l =
    let revision = refreshed page_revision l.list_revision in
    record l {
      list_revision = revision;
      baseline_revision = revision;
      browsing_history = false;
      has_new_entries = false;
    }

abbrev pub entry_mode : Loader → EntryReloadMode
entry_mode l = if l.browsing_history then prepend else replace

-- What the poll asks for.
unfoldable pub poll_request : Props → Loader → Request
poll_request p l = request_options p (if p.enabled then some (entry_mode l) else none)

-- The effect on `enabled`, `interval` and `polling`: whether the poll runs afterwards, and the request
-- that is made at once when loading is switched on.
unfoldable pub poll_effect : Props → Loader → Loader × Bool × Option Request
poll_effect p l =
    let next = record l { was_enabled = p.enabled } in
    if p.polling && ltb 0 p.interval
    then (
      next,
      true,
      if p.enabled && not l.was_enabled
          then some (request_options p (some (entry_mode l)))
          else none,
    )
    else (next, false, none)

-- The hook's `hasNewEntries`.
unfoldable pub shows_new_entries : Props → Loader → Bool
shows_new_entries p l = not p.enabled && l.has_new_entries

pub data Event : Type 0 where
  props : Props → Event
  token : ℕ → Event
  finish : Option ℕ → Event
  next_page : Event
  load : Props → Event
  loaded : Option String → Event

unfoldable pub step : Loader → Event → Loader
unfolding sync_effect poll_effect on_cancel_token on_finish on_before_next_page load_new_entries
    on_load_success
step l (props p) = (poll_effect p (sync_effect p l)).0
step l (token cancel) = on_cancel_token cancel l
step l (finish cancel_request) = on_finish cancel_request l
step l next_page = on_before_next_page l
step l (load p) = (load_new_entries p l).0
step l (loaded revision) = on_load_success revision l

unfoldable pub run : Loader → List Event → Loader
run l [] = l
run l (e ∷ es) = run (step l e) es
