-- ===== src/Tests/Transitions.antt =====
-- The transitions of one instance with one supervisor (resources/js/hooks/use-process-transitions.ts).
use horizon_new_dawn.Base.{
  ℕ, String, true, ◌≡◌, refl, sym, find, any, contains, inl, inr, none, some, List, [], ◌∷◌,
  string_eq, nat_eq, option_eq, arith,
}
use horizon_new_dawn.Base.Dict.{lookup, insert, erase, only}
use horizon_new_dawn.Transitions.Model.{
  pausing, continuing, SupervisorItem, SupervisorGroup, DashboardSupervisors, PendingTransition,
  PendingProcessTransitions, apply, reconcile_transitions, next_expiry, alive, min_of, least,
  resolve_process_transition_timeout, resolve_process_poll_interval,
}
use horizon_new_dawn.Transitions.Hook.{
  Hook, Timer, initial, on_instance_transition, on_supervisor_transition,
  on_instance_transition_failure, on_timeout, fresh_transition, transition_timeout_message,
  run_expiry_effect, arm, commit_transitions,
}
use horizon_new_dawn.Transitions.Run.{Event, run, step, handle}
use horizon_new_dawn.Transitions.Reconcile.{IsValid}
use horizon_new_dawn.Transitions.Settled.{
  instance_left, supervisor_left, lookup-reconcile_transitions,
}
use horizon_new_dawn.Transitions.Invariant.{Inv, initial-Inv, run-Inv}
use horizon_new_dawn.Transitions.Shape.{Shape, owner, IsUnambiguous, IsExclusive}
use horizon_new_dawn.Transitions.Exclusion.{run-IsExclusive}
use horizon_new_dawn.Transitions.Tokens.{late_failure_ignored}
use horizon_new_dawn.Transitions.Timer.{due_timeout_expires}

abbrev worker : SupervisorItem
worker = record {
  id = "alpha:one";
  name = "one";
  connection = "redis";
  queues = "default" ∷ [];
  processes = 1;
  balancing = "auto";
  status = "running";
  scaling = none;
}

abbrev alpha : SupervisorGroup
alpha = record {
  name = "alpha";
  environment = none;
  pid = some 7;
  status = "running";
  local = true;
  items = worker ∷ [];
}

abbrev dashboard : DashboardSupervisors
dashboard = record { available = true; groups = alpha ∷ []; message = none }

abbrev pause_at_zero : PendingTransition
pause_at_zero = record { status = pausing; token = 1; expires_at = 30000 }

abbrev paused_alpha : PendingProcessTransitions
paused_alpha = record { instances = ("alpha", pause_at_zero) ∷ []; supervisors = [] }

paused_alpha-IsValid : IsValid paused_alpha
unfolding lookup
paused_alpha-IsValid = record { instances = (refl, tt); supervisors = tt }

lookup-reconcile_transitions_example :
    let t' = apply (reconcile_transitions paused_alpha dashboard) paused_alpha in
    ((name : String)
      → lookup name t'.instances
        ≡ instance_left dashboard name (lookup name paused_alpha.instances))
    × ((id : String)
        → lookup id t'.supervisors
          ≡ supervisor_left dashboard id (lookup id paused_alpha.supervisors))
lookup-reconcile_transitions_example =
    lookup-reconcile_transitions paused_alpha dashboard paused_alpha-IsValid

paused_alpha-next_expiry : next_expiry paused_alpha ≡ some 30000
unfolding next_expiry min_of least
paused_alpha-next_expiry = refl

abbrev pause_alpha : Event
pause_alpha = Event.instance_transition (some dashboard) 5000 "alpha" pausing

abbrev requests : List (ℕ × Event)
requests =
    (0, pause_alpha)
    ∷ (10, Event.supervisor_transition (some dashboard) 5000 "alpha:one" pausing)
    ∷ (20, Event.report (some dashboard))
    ∷ (30000, Event.timeout)
    ∷ []

run-Inv_example : Inv (run initial requests)
run-Inv_example = run-Inv requests initial initial-Inv

abbrev shape_of_alpha : Shape
shape_of_alpha = ("alpha", "alpha:one" ∷ []) ∷ []

shape_of_alpha-IsUnambiguous : IsUnambiguous shape_of_alpha
unfolding lookup owner contains string_eq
shape_of_alpha-IsUnambiguous = ((refl, (refl, tt)), tt)

initial-IsExclusive : IsExclusive shape_of_alpha initial.transitions
unfolding initial lookup
initial-IsExclusive = (inl refl, tt)

run-IsExclusive_example : IsExclusive shape_of_alpha (run initial requests).transitions
run-IsExclusive_example =
    run-IsExclusive shape_of_alpha requests initial shape_of_alpha-IsUnambiguous
      (inr refl, (inr refl, (tt, (tt, tt)))) initial-Inv initial-IsExclusive

abbrev after_pause : Hook
after_pause = (on_instance_transition (some dashboard) 5000 initial "alpha" pausing 0).0

first_token : (on_instance_transition (some dashboard) 5000 initial "alpha" pausing 0).1 ≡ some 1
unfolding on_instance_transition find any lookup initial string_eq
first_token = refl

first_supervisor_token :
    (on_supervisor_transition (some dashboard) 5000 initial "alpha:one" pausing 0).1 ≡ some 1
unfolding on_supervisor_transition find any lookup initial string_eq
first_supervisor_token = refl

abbrev failure_then_nothing : List (ℕ × Event)
failure_then_nothing = (10, Event.instance_failure "alpha" 1) ∷ []

second_token :
    (on_instance_transition
      (some dashboard)
      5000
      (run after_pause failure_then_nothing)
      "alpha"
      continuing
      20).1
    ≡ some 2
unfolding run step handle run_expiry_effect arm next_expiry min_of least on_instance_transition
    on_instance_transition_failure commit_transitions fresh_transition find any lookup insert erase
    initial string_eq nat_eq option_eq resolve_process_transition_timeout
    resolve_process_poll_interval
second_token = refl

late_failure_ignored_example :
    let s' = run after_pause failure_then_nothing in
    let later = on_instance_transition (some dashboard) 5000 s' "alpha" continuing 20 in
    on_instance_transition_failure later.0 "alpha" 1 ≡ later.0
late_failure_ignored_example =
    late_failure_ignored (some dashboard) (some dashboard) 5000 5000 initial "alpha" pausing
      continuing 0 20 failure_then_nothing {token = 1} {token' = 2} first_token second_token

abbrev armed : Timer
armed = record { armed_for = 30000; due = 30000 }

abbrev waiting : Hook
waiting = record {
  transitions = paused_alpha;
  pending_transitions = paused_alpha;
  next_token = 1;
  expires_at = some 30000;
  timer = some armed;
  toasts = [];
}

waiting-Inv : Inv waiting
waiting-Inv = record {
  sound = record { valid = paused_alpha-IsValid; shown = refl };
  tracked = sym paused_alpha-next_expiry;
  armed = (30000, refl, omega arith);
}

due_timeout_expires_example :
    let s' = on_timeout waiting 30000 in
    (lookup "alpha" s'.transitions.instances
      ≡ only (alive 30000) (lookup "alpha" paused_alpha.instances))
    × (lookup "alpha" s'.transitions.supervisors
        ≡ only (alive 30000) (lookup "alpha" paused_alpha.supervisors))
    × (s'.toasts ≡ transition_timeout_message ∷ [])
due_timeout_expires_example =
    due_timeout_expires waiting 30000 {t = armed} "alpha" waiting-Inv refl (omega arith)

abbrev one_pause : List (ℕ × Event)
one_pause = (0, pause_alpha) ∷ []
