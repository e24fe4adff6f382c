-- ===== src/Tests/Pages.antt =====
-- Addresses (resources/js/lib/url-query.ts), durations (resources/js/lib/format-duration.ts), the queue
-- menu (resources/js/components/queues/queue-actions-menu.tsx) and the colour scheme (resources/js/hooks/
-- use-color-scheme.tsx), and the actions on a batch (resources/js/components/batches/batch-actions.tsx).
use horizon_new_dawn.Base.{
  ℕ, ◌+◌, ◌*◌, ◌≤◌, ◌<◌, String, true, false, ◌≡◌, refl, none, some, List, [], ◌∷◌, string_eq,
  nat_eq, arith, All, any, contains, length, if◌then◌else◌, leb,
}
use horizon_new_dawn.Base.Dict.{lookup, NodupKeys}
use horizon_new_dawn.Base.Int.{ℤ, pos, negsuc}
use horizon_new_dawn.Query.Params.{get}
use horizon_new_dawn.Query.Merge.{Parameters, text, number, Url, url_with_current_query}
use horizon_new_dawn.Query.Precedence.{overridden, or_else, get-url_with_current_query}
use horizon_new_dawn.Format.Duration.{precise_loop, precise_parts}
use horizon_new_dawn.Queues.Menu.{
  QueueActionTarget, Props, all_jobs, undefined, minutes, minutes_text, pause_queue, initial,
}
use horizon_new_dawn.Queues.Items.{
  has_available_actions, target_items, enabled, has_available_actions_lem,
}
use horizon_new_dawn.Queues.Pausing.{
  Event, select_pause, duration_change, pause_indefinitely_change, submit, visit_started, update,
  effects, resubmit_keeps_deadline,
}
use horizon_new_dawn.Theme.Provider.{Page, writable, mount}
use horizon_new_dawn.Theme.Provider
use horizon_new_dawn.Batches.PendingJobs
use horizon_new_dawn.Batches.PendingJobs.{
  WasAllowed, requests, confirm_cancel, cancel_batch, run-WasAllowed,
}
use horizon_new_dawn.Theme.Persistence.{ShownAfter, run-Shown}
use horizon_new_dawn.Theme.Scheme.{light}

abbrev show : ℤ → String
show (pos n) = "1"
show (negsuc n) = "-1"

abbrev address : Url
address = record {
  pathname = "/jobs";
  search_params = ("sort", "queue") ∷ ("query", "mail") ∷ [];
  hash = "";
}

abbrev removed : List String
removed = "tab" ∷ []

abbrev changes : Parameters
changes = ("query", text "") ∷ ("page", number (pos 1)) ∷ []

changes-NodupKeys : NodupKeys changes
unfolding lookup string_eq
changes-NodupKeys = (refl, (refl, tt))

get-url_with_current_query_example :
    get "sort"
      (url_with_current_query show address
        (record address { search_params = [] })
        changes
        removed).search_params
    ≡ overridden show (lookup "sort" changes) (
        if contains removed "sort"
        then none
        else or_else (get "sort" []) (get "sort" address.search_params))
get-url_with_current_query_example =
    get-url_with_current_query show address (record address { search_params = [] }) changes removed
      "sort" changes-NodupKeys

two_parts : length (precise_parts 6150) < 3
unfolding precise_parts precise_loop nat_eq
two_parts = omega arith

abbrev target : QueueActionTarget
target = record { connection = "redis"; paused = true; paused_until = some 1000; total = some 4 }

abbrev menu_props : Props
menu_props = record { pending = none; failed = undefined; queue_pausing = false; scope = all_jobs }

has_available_actions_lem_example :
    has_available_actions menu_props (target ∷ [])
    ≡ any (λ t. any enabled (target_items menu_props t)) (target ∷ [])
has_available_actions_lem_example = has_available_actions_lem menu_props (target ∷ [])

abbrev clicks : List Event
clicks =
    select_pause target 400000
    ∷ duration_change (minutes_text 0)
    ∷ submit
    ∷ pause_indefinitely_change true
    ∷ submit
    ∷ visit_started
    ∷ submit
    ∷ []

resubmit_keeps_deadline_example :
    (n : ℕ) × (effects submit (update (select_pause target 400000) (initial (target ∷ [])))
      ≡ (if leb n 525600 then pause_queue "redis" (minutes (some (pos n))) ∷ [] else []))
    × (1000 * 1000 ≤ 400000 + n * 60000)
    × (400000 + n * 60000 < 1000 * 1000 + 60000)
resubmit_keeps_deadline_example =
    resubmit_keeps_deadline target 1000 400000 (initial (target ∷ [])) refl (omega arith) refl

abbrev blank_page : Page
blank_page = record { dark_class = false; color_scheme = light }

abbrev turns : List Provider.Event
turns =
    Provider.Event.cycle
    ∷ Provider.Event.preference_change true
    ∷ Provider.Event.cycle
    ∷ Provider.Event.cycle
    ∷ []

run-Shown_example :
    ShownAfter false turns (Provider.run turns (mount (writable (some "light")) false blank_page))
run-Shown_example = run-Shown turns (writable (some "light")) false blank_page

abbrev running_batch : PendingJobs.Props
running_batch = record { can_cancel = true; can_retry = false }

abbrev finished_batch : PendingJobs.Props
finished_batch = record { can_cancel = false; can_retry = true }

-- The batch finishes while the dialog that asks for its cancellation is open.
abbrev batch_clicks : List PendingJobs.Event
batch_clicks = PendingJobs.Event.select_cancel ∷ PendingJobs.Event.rendered finished_batch ∷ []

still_cancelled :
    requests confirm_cancel (PendingJobs.run running_batch batch_clicks PendingJobs.initial)
    ≡ cancel_batch ∷ []
unfolding requests PendingJobs.run PendingJobs.update
still_cancelled = refl

run-WasAllowed_example :
    All
      (WasAllowed running_batch batch_clicks)
      (requests confirm_cancel (PendingJobs.run running_batch batch_clicks PendingJobs.initial))
run-WasAllowed_example = run-WasAllowed running_batch batch_clicks confirm_cancel
