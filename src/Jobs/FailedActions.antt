-- ===== src/Jobs/FailedActions.antt =====
-- resources/js/components/jobs/failed-job-actions.tsx: the buttons and menus for failed jobs, as machines over
-- clicks and the callbacks of their visits. The buttons are `RetryFailedJobButton` and
-- `RetryAllFailedJobsButton`; the menus are `FailedJobsActionsMenu` and `FailedJobActionsMenu`.
use horizon_new_dawn.Base.{
  String, Bool, true, false, not, ◌&&◌, ◌||◌, ◌≡◌, refl, ◌⊎◌, inl, inr, List, [], ◌∷◌, ◌++◌, arith,
  if◌then◌else◌, All, All-append, by_test,
}

-- The routes of the visits.
pub data Route : Type 0 where
  retry_failed_job : String → Route
  retry_all_failed_jobs : Route
  remove_failed_job : String → Route
  clear_all_failed_jobs : Route

pub data ButtonEvent : Type 0 where
  click start finish : ButtonEvent

-- `working` after an event, and the visits that it makes.
unfoldable pub update_button : ButtonEvent → Bool → Bool
update_button click working = working
update_button start working = true
update_button finish working = false

unfoldable pub button_visits : Route → Bool → ButtonEvent → Bool → List Route
button_visits route disabled click working = if disabled || working then [] else route ∷ []
button_visits route disabled event working = []

-- What a menu offers: its trigger, whether its retry and its removal are enabled, and their routes. An
-- item that is not rendered is not enabled.
pub record Menu : Type 0 where
  pub available : Bool
  pub retryable : Bool
  pub removable : Bool
  pub retry_route : Route
  pub remove_route : Route

unfoldable pub failed_jobs_menu : Bool → Bool → Bool → Menu
failed_jobs_menu has_failed_jobs retryable clearable = record {
  available = has_failed_jobs;
  retryable = retryable;
  removable = clearable;
  retry_route = retry_all_failed_jobs;
  remove_route = clear_all_failed_jobs;
}

unfoldable pub failed_job_menu : String → Bool → Menu
failed_job_menu job_id can_retry = record {
  available = true;
  retryable = can_retry;
  removable = true;
  retry_route = retry_failed_job job_id;
  remove_route = remove_failed_job job_id;
}

pub record State : Type 0 where
  pub menu_open : Bool
  pub dialog_open : Bool
  pub working : Bool

abbrev pub initial : State
initial = record { menu_open = false; dialog_open = false; working = false }

pub data Event : Type 0 where
  open_menu close_menu select_retry select_remove close_dialog confirm : Event
  started removed finished : Event

-- `ActionMenuTrigger`: the trigger opens no menu if nothing is available, or while a visit is under way.
unfoldable pub can_open : Menu → State → Bool
can_open m s = m.available && not s.working

-- A selected item closes its menu.
unfoldable pub update : Menu → Event → State → State
unfolding can_open
update m open_menu s = if can_open m s then record s { menu_open = true } else s
update m close_menu s = record s { menu_open = false }
update m select_retry s = if s.menu_open && m.retryable then record s { menu_open = false } else s
update m select_remove s =
    if s.menu_open && m.removable then record s { menu_open = false; dialog_open = true } else s
update m close_dialog s = record s { dialog_open = false }
update m confirm s = s
update m started s = record s { working = true }
update m removed s = record s { dialog_open = false }
update m finished s = record s { working = false }

-- The visits of the items and of the dialog's button, which is disabled while a visit is under way.
unfoldable pub visits : Menu → Event → State → List Route
visits m select_retry s = if s.menu_open && m.retryable then m.retry_route ∷ [] else []
visits m confirm s = if s.dialog_open && not s.working then m.remove_route ∷ [] else []
visits m event s = []

unfoldable pub run : Menu → List Event → State → List Route
unfolding update visits
run m [] s = []
run m (e ∷ es) s = visits m e s ++ run m es (update m e s)

-- The menu offers the visit.
abbrev pub Offered : Menu → Route → Type 0
Offered m route =
    (m.available ≡ true)
    × ((m.retryable ≡ true) × (route ≡ m.retry_route)
        ⊎ (m.removable ≡ true) × (route ≡ m.remove_route))

-- An open menu is available, and an open dialog is that of an available menu with a removal.
abbrev pub Guarded : Menu → State → Type 0
Guarded m s =
    (s.menu_open && not m.available ≡ false)
    × (s.dialog_open && not (m.available && m.removable) ≡ false)

update-Guarded : (m : Menu) (e : Event) (s : State) → Guarded m s → Guarded m (update m e s)
unfolding update can_open
update-Guarded m open_menu s g = ground (arith, g)
update-Guarded m close_menu s (menu, dialog) = (refl, dialog)
update-Guarded m select_retry s g = ground (arith, g)
update-Guarded m select_remove s g = ground (arith, g)
update-Guarded m close_dialog s (menu, dialog) = (menu, refl)
update-Guarded m confirm s g = g
update-Guarded m started s g = g
update-Guarded m removed s (menu, dialog) = (menu, refl)
update-Guarded m finished s g = g

retry_offered :
    (on available can : Bool)
    → on && can ≡ true
    → on && not available ≡ false
    → (available ≡ true) × (can ≡ true)
retry_offered on available can sent guarded = (ground arith, ground arith)

remove_offered :
    (on working available can : Bool)
    → on && not working ≡ true
    → on && not (available && can) ≡ false
    → (available ≡ true) × (can ≡ true)
remove_offered on working available can sent guarded = (ground arith, ground arith)

visits-Offered : (m : Menu) (e : Event) (s : State) → Guarded m s → All (Offered m) (visits m e s)
unfolding visits
visits-Offered m select_retry s g =
    by_test (All (Offered m)) (s.menu_open && m.retryable)
      (λ sent.
        let (available, can) = retry_offered s.menu_open m.available m.retryable sent g.0 in
        ((available, inl (can, refl)), tt))
      (λ held. tt)
visits-Offered m confirm s g =
    by_test (All (Offered m)) (s.dialog_open && not s.working)
      (λ sent.
        let (available, can) =
          remove_offered s.dialog_open s.working m.available m.removable sent g.1 in
        ((available, inr (can, refl)), tt))
      (λ held. tt)
visits-Offered m open_menu s g = tt
visits-Offered m close_menu s g = tt
visits-Offered m select_remove s g = tt
visits-Offered m close_dialog s g = tt
visits-Offered m started s g = tt
visits-Offered m removed s g = tt
visits-Offered m finished s g = tt

-- From a state in which only what the menu offers is open, no sequence of clicks and callbacks makes a visit that
-- the menu does not offer: jobs are retried or removed only if the page says that they can be.
pub run-Offered :
    (m : Menu) (es : List Event) (s : State) → Guarded m s → All (Offered m) (run m es s)
unfolding run
run-Offered m [] s g = tt
run-Offered m (e ∷ es) s g =
    All-append (Offered m) (visits m e s) (run m es (update m e s)) (visits-Offered m e s g)
      (run-Offered m es (update m e s) (update-Guarded m e s g))
