-- ===== src/Queues/Menu.antt =====
-- resources/js/components/queues/queue-actions-menu.tsx: the menu's state and its handlers. Deadlines
-- are in seconds, the clock in milliseconds. The text of the duration stands for what the code and the browser
-- take from it. A request names its target's connection; its URL and the queue are the same in each.
use horizon_new_dawn.Base.{
  ℕ, ◌+◌, ◌-◌, ◌*◌, ◌/◌, max, String, Bool, true, false, not, ◌&&◌, ◌||◌, Option, none, some, List,
  [], ◌∷◌, ltb, leb, if◌then◌else◌,
}
use horizon_new_dawn.Base.Int.{ℤ, pos, negsuc}

pub record QueueActionTarget : Type 0 where
  pub connection : String
  pub paused : Bool
  pub paused_until : Option ℕ
  pub total : Option ℕ

pub data QueueActionScope : Type 0 where
  all_jobs pending_jobs failed_jobs : QueueActionScope

-- The component's properties; `failed` is `failedJobs`, which is undefined, null or a number.
pub data FailedJobs : Type 0 where
  undefined null : FailedJobs
  number : ℕ → FailedJobs

pub record Props : Type 0 where
  pub pending : Option ℕ
  pub failed : FailedJobs
  pub queue_pausing : Bool
  pub scope : QueueActionScope

-- `duration_minutes` of the pause request.
pub data Duration : Type 0 where
  indefinitely : Duration
  minutes : Option ℤ → Duration

pub data Effect : Type 0 where
  pause_queue : String → Duration → Effect
  resume_queue clear_queue retry_failed_queue_jobs : String → Effect
  flush_all : Effect

-- What `Number.parseInt` reads in the text (none is NaN), and the whole number that the text is for the field of
-- type number (none if there is no number, or a fraction).
pub record DurationText : Type 0 where
  pub parsed : Option ℤ
  pub value : Option ℤ

-- `String(minutes)`
abbrev pub minutes_text : ℕ → DurationText
minutes_text n = record { parsed = some (pos n); value = some (pos n) }

pub record Menu : Type 0 where
  pub dialog_open : Bool
  pub clear_dialog_open : Bool
  pub retry_failed_dialog_open : Bool
  pub active_target : Option QueueActionTarget
  pub pause_indefinitely : Bool
  pub duration_minutes : DurationText
  pub working : Bool

-- The state of the first render.
abbrev pub initial : List QueueActionTarget → Menu
initial targets = record {
  dialog_open = false;
  clear_dialog_open = false;
  retry_failed_dialog_open = false;
  active_target = elim targets [ [] ↦ none | t ∷ ts ↦ some t ];
  pause_indefinitely = true;
  duration_minutes = minutes_text 15;
  working = false;
}

-- `Math.max(1, Math.ceil((pausedUntil * 1000 - Date.now()) / 60_000))`: a deadline in the past is 0 away.
unfoldable pub remaining_minutes : ℕ → ℕ → ℕ
remaining_minutes paused_until now = max 1 ((paused_until * 1000 - now + 59999) / 60000)

unfoldable pub open_pause_dialog : QueueActionTarget → ℕ → Menu → Menu
unfolding remaining_minutes
open_pause_dialog target now menu = record menu {
  dialog_open = true;
  active_target = some target;
  pause_indefinitely = elim target.paused_until [ none ↦ true | some at ↦ false ];
  duration_minutes = elim target.paused_until [
    | none ↦ minutes_text 15
    | some at ↦ minutes_text (remaining_minutes at now)
  ];
}

unfoldable pub open_clear_dialog : QueueActionTarget → Menu → Menu
open_clear_dialog target menu = record menu {
  clear_dialog_open = true;
  active_target = some target;
}

unfoldable pub open_retry_failed_dialog : QueueActionTarget → Menu → Menu
open_retry_failed_dialog target menu = record menu {
  retry_failed_dialog_open = true;
  active_target = some target;
}

-- `!Number.isInteger(duration) || duration < 1`
abbrev pub invalid : Option ℤ → Bool
invalid none = true
invalid (some (negsuc n)) = true
invalid (some (pos n)) = ltb n 1

unfoldable pub duration_invalid : Menu → Bool
duration_invalid menu = not menu.pause_indefinitely && invalid menu.duration_minutes.parsed

-- The browser's validation of the field, which is required, and has the least value 1 and the greatest 525600.
abbrev pub field_accepts : Option ℤ → Bool
field_accepts none = false
field_accepts (some (negsuc n)) = false
field_accepts (some (pos n)) = leb 1 n && leb n 525600

-- The form has the field only where the pause is timed.
abbrev pub form_accepts : Menu → Bool
form_accepts menu = menu.pause_indefinitely || field_accepts menu.duration_minutes.value

-- A handler's request for the active target, if there is one.
abbrev pub for_target : Option QueueActionTarget → (String → Effect) → List Effect
for_target none request = []
for_target (some target) request = request target.connection ∷ []

-- The submit button of the timed form, with its guard, the browser's validation, and `submitPause`.
unfoldable pub submit_pause : Menu → List Effect
unfolding duration_invalid
submit_pause menu =
    if menu.working || duration_invalid menu || not (form_accepts menu)
    then []
    else for_target menu.active_target (λ connection.
      pause_queue connection
        (if menu.pause_indefinitely then indefinitely else minutes menu.duration_minutes.parsed))

-- The buttons of the three other dialogs, each with its guard.
unfoldable pub confirm : (String → Effect) → Menu → List Effect
confirm request menu = if menu.working then [] else for_target menu.active_target request
