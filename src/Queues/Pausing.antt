-- ===== src/Queues/Pausing.antt =====
-- resources/js/components/queues/queue-actions-menu.tsx: the menu as a machine over the user's actions and
-- the callbacks of its visits, and the pause requests that it sends.
use horizon_new_dawn.Base.{
  ℕ, ◌+◌, ◌*◌, ◌≤◌, ◌<◌, Bool, true, false, not, ◌&&◌, ◌||◌, ◌≡◌, Option, none, some, List, [], ◌∷◌,
  ◌++◌, arith, ltb, leb, if◌then◌else◌, All, All-append, by_test, String,
}
use horizon_new_dawn.Base.Int.{ℤ, pos, negsuc}
use horizon_new_dawn.Queues.Menu.{
  QueueActionTarget, DurationText, form_accepts, indefinitely, minutes, Effect, pause_queue,
  resume_queue, clear_queue, retry_failed_queue_jobs, flush_all, Menu, remaining_minutes,
  open_pause_dialog, open_clear_dialog, open_retry_failed_dialog, invalid, duration_invalid,
  for_target, submit_pause, confirm,
}

-- The actions of the user, and the callbacks of the visits. A select of the pause item comes with the
-- clock's reading.
pub data Event : Type 0 where
  select_pause : QueueActionTarget → ℕ → Event
  select_resume select_clear select_retry_failed : QueueActionTarget → Event
  pause_indefinitely_change dialog_change clear_dialog_change retry_failed_dialog_change :
      Bool → Event
  duration_change : DurationText → Event
  submit confirm_basic_pause confirm_clear confirm_retry_failed : Event
  visit_started visit_finished pause_succeeded resume_succeeded clear_succeeded
        retry_failed_succeeded :
      Event

unfoldable pub update : Event → Menu → Menu
unfolding open_pause_dialog open_clear_dialog open_retry_failed_dialog
update (select_pause target now) menu = open_pause_dialog target now menu
update (select_clear target) menu = open_clear_dialog target menu
update (select_retry_failed target) menu = open_retry_failed_dialog target menu
update (pause_indefinitely_change on) menu = record menu { pause_indefinitely = on }
update (dialog_change on) menu = record menu { dialog_open = on }
update (clear_dialog_change on) menu = record menu { clear_dialog_open = on }
update (retry_failed_dialog_change on) menu = record menu { retry_failed_dialog_open = on }
update (duration_change text) menu = record menu { duration_minutes = text }
update visit_started menu = record menu { working = true }
update visit_finished menu = record menu { working = false }
update pause_succeeded menu = record menu { dialog_open = false }
update clear_succeeded menu = record menu { clear_dialog_open = false }
update retry_failed_succeeded menu = record menu { retry_failed_dialog_open = false }
update event menu = menu

unfoldable pub effects : Event → Menu → List Effect
unfolding submit_pause confirm
effects (select_resume target) menu = resume_queue target.connection ∷ []
effects submit menu = submit_pause menu
effects confirm_basic_pause menu = confirm (λ connection. pause_queue connection indefinitely) menu
effects confirm_clear menu = confirm clear_queue menu
effects confirm_retry_failed menu = confirm retry_failed_queue_jobs menu
effects pause_succeeded menu = flush_all ∷ []
effects resume_succeeded menu = flush_all ∷ []
effects event menu = []

-- The effects of a sequence of events, in order.
unfoldable pub run : List Event → Menu → List Effect
unfolding update effects
run [] menu = []
run (e ∷ es) menu = effects e menu ++ run es (update e menu)

-- A pause has no end, or lasts a positive number of minutes.
abbrev pub Sensible : Effect → Type 0
Sensible (pause_queue connection indefinitely) = Unit
Sensible (pause_queue connection (minutes none)) = ⊥
Sensible (pause_queue connection (minutes (some (negsuc n)))) = ⊥
Sensible (pause_queue connection (minutes (some (pos n)))) = 1 ≤ n
Sensible effect = Unit

for_target-Sensible :
    (target : Option QueueActionTarget) (request : String → Effect)
    → ((connection : String) → Sensible (request connection))
    → All Sensible (for_target target request)
for_target-Sensible none request ok = tt
for_target-Sensible (some target) request ok = (ok target.connection, tt)

chosen-Sensible :
    (connection : String) (on : Bool) (text : Option ℤ)
    → not on && invalid text ≡ false
    → Sensible (pause_queue connection (if on then indefinitely else minutes text))
chosen-Sensible connection true text ok = tt
chosen-Sensible connection false none ok = ground arith
chosen-Sensible connection false (some (negsuc n)) ok = ground arith
chosen-Sensible connection false (some (pos n)) ok = ground arith

submit-Sensible : (menu : Menu) → All Sensible (submit_pause menu)
unfolding submit_pause duration_invalid
submit-Sensible menu =
    by_test (All Sensible) (menu.working || duration_invalid menu || not (form_accepts menu))
      (λ held. tt)
      λ free.
        for_target-Sensible menu.active_target
          (λ connection. pause_queue connection (
            if menu.pause_indefinitely then indefinitely else minutes menu.duration_minutes.parsed))
          λ connection.
            chosen-Sensible connection menu.pause_indefinitely menu.duration_minutes.parsed
              (ground (arith, free))

confirm-Sensible :
    (request : String → Effect) (menu : Menu)
    → ((connection : String) → Sensible (request connection))
    → All Sensible (confirm request menu)
unfolding confirm
confirm-Sensible request menu ok =
    by_test (All Sensible) menu.working (λ held. tt)
      λ free. for_target-Sensible menu.active_target request ok

effects-Sensible : (e : Event) (menu : Menu) → All Sensible (effects e menu)
unfolding effects
effects-Sensible (select_pause target now) menu = tt
effects-Sensible (select_resume target) menu = (tt, tt)
effects-Sensible (select_clear target) menu = tt
effects-Sensible (select_retry_failed target) menu = tt
effects-Sensible (pause_indefinitely_change on) menu = tt
effects-Sensible (dialog_change on) menu = tt
effects-Sensible (clear_dialog_change on) menu = tt
effects-Sensible (retry_failed_dialog_change on) menu = tt
effects-Sensible (duration_change text) menu = tt
effects-Sensible submit menu = submit-Sensible menu
effects-Sensible confirm_basic_pause menu =
    confirm-Sensible (λ c. pause_queue c indefinitely) menu (λ c. tt)
effects-Sensible confirm_clear menu = confirm-Sensible clear_queue menu (λ c. tt)
effects-Sensible confirm_retry_failed menu = confirm-Sensible retry_failed_queue_jobs menu (λ c. tt)
effects-Sensible visit_started menu = tt
effects-Sensible visit_finished menu = tt
effects-Sensible pause_succeeded menu = (tt, tt)
effects-Sensible resume_succeeded menu = (tt, tt)
effects-Sensible clear_succeeded menu = tt
effects-Sensible retry_failed_succeeded menu = tt

-- Whatever the user does and however the visits end, every pause that is requested has no end or lasts
-- at least one minute.
pub run-Sensible : (es : List Event) (menu : Menu) → All Sensible (run es menu)
unfolding run
run-Sensible [] menu = tt
run-Sensible (e ∷ es) menu =
    All-append Sensible (effects e menu) (run es (update e menu)) (effects-Sensible e menu)
      (run-Sensible es (update e menu))

remaining_minutes_lem :
    (deadline now : ℕ)
    → now < deadline * 1000
    → (1 ≤ remaining_minutes deadline now)
      × (deadline * 1000 ≤ now + remaining_minutes deadline now * 60000)
      × (now + remaining_minutes deadline now * 60000 < deadline * 1000 + 60000)
unfolding remaining_minutes
remaining_minutes_lem deadline now ahead = omega arith

not_below_one : (n : ℕ) → 1 ≤ n → ltb n 1 ≡ false
not_below_one n le = ground arith

one_or_more : (n : ℕ) → 1 ≤ n → leb 1 n ≡ true
one_or_more n le = ground arith

submit_timed :
    (target : QueueActionTarget) (deadline now : ℕ) (menu : Menu)
    → target.paused_until ≡ some deadline
    → menu.working ≡ false
    → 1 ≤ remaining_minutes deadline now
    → submit_pause (open_pause_dialog target now menu) ≡ (
        if leb (remaining_minutes deadline now) 525600
        then pause_queue target.connection (minutes (some (pos (remaining_minutes deadline now))))
          ∷ []
        else [])
unfolding submit_pause open_pause_dialog duration_invalid
submit_timed target deadline now menu timed idle le =
    let n = remaining_minutes deadline now in
    rw timed (rw idle (rw (not_below_one n le) (rw (one_or_more n le) (ground arith))))

-- With no visit under way, selecting the pause of a target that is paused to a deadline still ahead, and submitting
-- the form at once, requests a pause of the same target that ends at the deadline or less than a minute later, if
-- it lasts for no more than the 525600 minutes that the form takes, and nothing otherwise.
pub resubmit_keeps_deadline :
    (target : QueueActionTarget) (deadline now : ℕ) (menu : Menu)
    → target.paused_until ≡ some deadline
    → now < deadline * 1000
    → menu.working ≡ false
    → (n : ℕ) × (effects submit (update (select_pause target now) menu) ≡ (
        if leb n 525600 then pause_queue target.connection (minutes (some (pos n))) ∷ [] else []))
      × (deadline * 1000 ≤ now + n * 60000)
      × (now + n * 60000 < deadline * 1000 + 60000)
unfolding effects update submit_pause open_pause_dialog duration_invalid
resubmit_keeps_deadline target deadline now menu timed ahead idle =
    let (positive, le, lt) = remaining_minutes_lem deadline now ahead in
    (
      remaining_minutes deadline now,
      submit_timed target deadline now menu timed idle positive,
      le,
      lt,
    )
