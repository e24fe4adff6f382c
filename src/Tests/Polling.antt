-- ===== src/Tests/Polling.antt =====
-- A list that grows (resources/js/hooks/use-auto-load.ts), the pages' polls (resources/js/hooks/
-- use-dashboard-refresh.ts) and a delayed job (resources/js/hooks/use-scheduled-job-clock.ts).
use horizon_new_dawn.Base.{
  ℕ, Bool, true, false, ◌≡◌, refl, Option, none, some, List, [], ◌∷◌, option_eq, string_eq, nat_eq,
  arith, All,
}
use horizon_new_dawn.Polling.AutoLoad.{
  Props, Loader, Event, token, next_page, props, poll_request, step, run,
}
use horizon_new_dawn.Polling.History.{next_page_kept}
use horizon_new_dawn.Polling.Clock.{next_scheduled_at, pending_job_state, states_kept_until_next}

abbrev listing : Props
listing = record {
  enabled = true;
  prop = "jobs";
  interval = 5000;
  list_revision = some "r1";
  additional_props = [];
  include_shared_props = true;
  scope = "pending";
  polling = true;
  loaded_item_count = 50;
}

abbrev loader : Loader
loader = record {
  list_revision = some "r1";
  baseline_revision = some "r1";
  scope = "pending";
  browsing_history = false;
  poll_cancel = some 3;
  was_enabled = true;
  has_new_entries = false;
  cancelled = [];
}

abbrev page_two : List Event
page_two = props (record listing { loaded_item_count = 100 }) ∷ token 4 ∷ []

next_page_kept_example :
    ((poll_request listing (run (step loader next_page) page_two)).reset ≡ [])
    × ((poll_request listing (run (step loader next_page) page_two)).merge_intent_prepend ≡ true)
next_page_kept_example = next_page_kept loader page_two listing (refl, (tt, tt))

abbrev manual : Props
manual = record listing { enabled = false; list_revision = some "r2" }

abbrev settings : List (ℕ × Bool)
settings = (5000, true) ∷ (5000, false) ∷ (0, true) ∷ (3000, true) ∷ []

abbrev jobs : List (Option ℕ)
jobs = none ∷ some 9000 ∷ some 7000 ∷ []

jobs-next : next_scheduled_at 5000 jobs none ≡ some 7000
unfolding next_scheduled_at
jobs-next = refl

states_kept_until_next_example :
    All (λ job. pending_job_state "pending" job 6999 ≡ pending_job_state "pending" job 5000) jobs
states_kept_until_next_example =
    states_kept_until_next 5000 6999 "pending" jobs {next = 7000} jobs-next (omega arith)
      (omega arith)
