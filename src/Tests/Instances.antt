-- ===== src/Tests/Instances.antt =====
-- Commands on one instance with one supervisor (resources/js/components/dashboard/horizon-instances-actions.tsx,
-- supervisors-table.tsx).
use horizon_new_dawn.Base.{
  suc, true, false, ◌≡◌, refl, inr, none, some, List, [], ◌∷◌, if◌then◌else◌, find, any, string_eq,
}
use horizon_new_dawn.Transitions.Model.{
  pausing, SupervisorItem, SupervisorGroup, DashboardSupervisors, up, steady,
}
use horizon_new_dawn.Transitions.Hook.{Hook, initial, named, owns, on_instance_transition}
use horizon_new_dawn.Transitions.Invariant.{initial-Inv}
use horizon_new_dawn.Instances.Host.{SameTransitions, instance_host}
use horizon_new_dawn.Instances.Command.{Menu, pause, Fetch, answers, json, run, resume}
use horizon_new_dawn.Instances.CommandLaws.{Idle, fails, command_leaves_no_trace}
use horizon_new_dawn.Instances.Display.{instance_transition_pending}
use horizon_new_dawn.Instances.Agreement.{shown, instance_offer_accepted}
use horizon_new_dawn.Instances.Terminate
use horizon_new_dawn.Instances.Terminate.{Works, run-Works}
use horizon_new_dawn.Instances.Scaling.{animate, ticks, ticks_reach_target}

abbrev worker : SupervisorItem
worker = record {
  id = "alpha:one";
  name = "one";
  connection = "redis";
  queues = "default" ∷ [];
  processes = 1;
  balancing = "auto";
  status = "running";
  scaling = none;
}

abbrev alpha : SupervisorGroup
alpha = record {
  name = "alpha";
  environment = none;
  pid = some 7;
  status = "running";
  local = true;
  items = worker ∷ [];
}

abbrev dashboard : DashboardSupervisors
dashboard = record { available = true; groups = alpha ∷ []; message = none }

alpha_found : find (named "alpha") dashboard.groups ≡ some alpha
unfolding find string_eq
alpha_found = refl

worker_found : find (owns "alpha:one") dashboard.groups ≡ some alpha
unfolding find any string_eq
worker_found = refl

instance_offer_accepted_example :
    (on_instance_transition (some dashboard) 5000 initial "alpha" pausing 0).1 ≡ (
      if instance_transition_pending (shown initial) alpha
      then none
      else some (suc initial.next_token))
instance_offer_accepted_example =
    instance_offer_accepted dashboard 5000 initial alpha pausing 0 initial-Inv refl alpha_found

abbrev closed_menu : Menu Hook
closed_menu = record { host = initial; working = none; awaited = none; toasts = [] }

-- The answer is an error with a message.
abbrev refusal : Fetch
refusal = answers false (json (some "Horizon is not running."))

fails-refusal : fails refusal ≡ true
unfolding fails
fails-refusal = refl

command_leaves_no_trace_example :
    let host = instance_host (some dashboard) 5000 "alpha" in
    let after =
      resume host refusal
        (run host pause "Horizon could not be paused." (some "token") 0 closed_menu) in
    SameTransitions after.host initial × Idle host after
command_leaves_no_trace_example =
    command_leaves_no_trace (instance_host (some dashboard) 5000 "alpha") pause
      "Horizon could not be paused." (some "token") 0 refusal closed_menu (refl, refl) fails-refusal

abbrev terminated : List Terminate.Event
terminated =
    Terminate.select
    ∷ Terminate.confirm (some "token")
    ∷ Terminate.answer (answers true (json none))
    ∷ Terminate.elapse
    ∷ Terminate.reloaded
    ∷ []

run-Works_example : Works (Terminate.run true Terminate.initial terminated)
run-Works_example = run-Works true Terminate.initial terminated (inr refl)

ticks_reach_target_example : (ticks steady 5 (animate up)).animation ≡ steady
unfolding animate
ticks_reach_target_example = ticks_reach_target steady 4 (animate up) refl refl
