-- ===== src/Transitions/Hook.antt =====
-- The state of `useProcessTransitions` and its handlers (resources/js/hooks/
-- use-process-transitions.ts). `supervisors` is the page's prop at the render whose handlers run,
-- `now` the clock. React applies a state update and runs the effects before the next event.
use horizon_new_dawn.Base.{
  ℕ, suc, ◌+◌, ◌-◌, String, Bool, true, false, ◌||◌, Option, none, some, List, [], ◌∷◌, ltb,
  if◌then◌else◌, ◌==◌, option_eq, string_eq, nat_eq, any, find,
}
use horizon_new_dawn.Base.Dict.{lookup, insert, erase}
use horizon_new_dawn.Transitions.Model.{
  HorizonTransitionStatus, SupervisorGroup, SupervisorItem, DashboardSupervisors, PendingTransition,
  PendingProcessTransitions, empty_pending_transitions, Update, same, replaced,
  resolve_process_transition_timeout, reconcile_transitions, next_expiry,
  without_expired_transitions,
}

-- A running `setTimeout` of the expiry effect: the `expiresAt` in its closure, and when it fires.
pub record Timer : Type 0 where
  pub armed_for : ℕ
  pub due : ℕ

pub record Hook : Type 0 where
  -- `transitionRef.current`
  pub transitions : PendingProcessTransitions
  -- the React state that the page shows
  pub pending_transitions : PendingProcessTransitions
  pub next_token : ℕ
  -- the dependency for which the expiry effect last ran
  pub expires_at : Option ℕ
  pub timer : Option Timer
  pub toasts : List String

abbrev pub transition_timeout_message : String
transition_timeout_message =
    "Horizon did not report the requested state. Showing the latest status."

unfoldable pub initial : Hook
initial = record {
  transitions = empty_pending_transitions;
  pending_transitions = empty_pending_transitions;
  next_token = 0;
  expires_at = none;
  timer = none;
  toasts = [];
}

unfoldable pub commit_transitions : Hook → Update → Hook
commit_transitions s same = s
commit_transitions s (replaced t) = record s { transitions = t; pending_transitions = t }

-- The effect on `supervisors`.
unfoldable pub on_supervisors : Hook → Option DashboardSupervisors → Hook
unfolding commit_transitions
on_supervisors s none = s
on_supervisors s (some supervisors) =
    commit_transitions s (reconcile_transitions s.transitions supervisors)

-- `current.instances[name] !== undefined`
abbrev pub defined {ℓ} : {A : Type ℓ} → Option A → Bool
defined none = false
defined (some _) = true

abbrev pub available_groups : Option DashboardSupervisors → List SupervisorGroup
available_groups none = []
available_groups (some d) = if d.available then d.groups else []

abbrev pub named : String → SupervisorGroup → Bool
named name group = group.name == name

abbrev pub owns : String → SupervisorGroup → Bool
owns id group = any (λ (i : SupervisorItem). i.id == id) group.items

unfoldable pub fresh_transition : Hook → HorizonTransitionStatus → ℕ → ℕ → PendingTransition
fresh_transition s status now configured = record {
  status = status;
  token = suc s.next_token;
  expires_at = now + resolve_process_transition_timeout configured;
}

abbrev pub with_instance : Hook → String → PendingTransition → Hook
with_instance s name t =
    let transitions = record s.transitions { instances = insert name t s.transitions.instances } in
    record s {
      next_token = suc s.next_token;
      transitions = transitions;
      pending_transitions = transitions;
    }

abbrev pub with_supervisor : Hook → String → PendingTransition → Hook
with_supervisor s id t =
    let transitions = record s.transitions {
      supervisors = insert id t s.transitions.supervisors;
    } in
    record s {
      next_token = suc s.next_token;
      transitions = transitions;
      pending_transitions = transitions;
    }

unfoldable pub on_instance_transition :
    Option DashboardSupervisors → ℕ → Hook → String → HorizonTransitionStatus → ℕ → Hook × Option ℕ
unfolding fresh_transition
on_instance_transition supervisors configured s name status now =
    let current = s.transitions in
    let started = with_instance s name (fresh_transition s status now configured) in
    elim (find (named name) (available_groups supervisors)) [
      | none ↦ (s, none)
      | some group ↦
          if defined (lookup name current.instances)
            || any (λ (i : SupervisorItem). defined (lookup i.id current.supervisors)) group.items
          then (s, none)
          else (started, some (suc s.next_token))
    ]

unfoldable pub on_supervisor_transition :
    Option DashboardSupervisors → ℕ → Hook → String → HorizonTransitionStatus → ℕ → Hook × Option ℕ
unfolding fresh_transition
on_supervisor_transition supervisors configured s id status now =
    let current = s.transitions in
    let started = with_supervisor s id (fresh_transition s status now configured) in
    elim (find (owns id) (available_groups supervisors)) [
      | none ↦ (s, none)
      | some group ↦
          if defined (lookup group.name current.instances)
            || defined (lookup id current.supervisors)
          then (s, none)
          else (started, some (suc s.next_token))
    ]

-- `current[key]?.token === token`
abbrev pub holds_token : Option PendingTransition → ℕ → Bool
holds_token none token = false
holds_token (some t) token = t.token == token

unfoldable pub on_instance_transition_failure : Hook → String → ℕ → Hook
unfolding commit_transitions
on_instance_transition_failure s name token =
    let current = s.transitions in
    let without = record current { instances = erase name current.instances } in
    if holds_token (lookup name current.instances) token
    then commit_transitions s (replaced without)
    else s

unfoldable pub on_supervisor_transition_failure : Hook → String → ℕ → Hook
unfolding commit_transitions
on_supervisor_transition_failure s id token =
    let current = s.transitions in
    let without = record current { supervisors = erase id current.supervisors } in
    if holds_token (lookup id current.supervisors) token
    then commit_transitions s (replaced without)
    else s

-- The effect on `expiresAt`: it clears the old timeout and starts one for the next expiry.
unfoldable pub arm : Option ℕ → ℕ → Option Timer
arm none now = none
arm (some expiry) now = some (record { armed_for = expiry; due = now + (expiry - now) })

unfoldable pub run_expiry_effect : Hook → ℕ → Hook
unfolding arm
run_expiry_effect s now =
    let expiry = next_expiry s.pending_transitions in
    if expiry == s.expires_at then s else record s { expires_at = expiry; timer = arm expiry now }

-- `expireTransitions`, when its timeout fires at `now`.
unfoldable pub finish_expiry : Hook → Update → Hook
unfolding commit_transitions
finish_expiry s same = record s { timer = none }
finish_expiry s (replaced t) =
    let shown = commit_transitions s (replaced t) in
    record shown { timer = none; toasts = transition_timeout_message ∷ s.toasts }

unfoldable pub expire : Hook → ℕ → ℕ → Hook
unfolding finish_expiry
expire s armed_for now =
    if ltb now armed_for
    then record s { timer = some (record { armed_for = armed_for; due = now + (armed_for - now) }) }
    else finish_expiry s (without_expired_transitions s.transitions now)

unfoldable pub fire : Hook → Option Timer → ℕ → Hook
unfolding expire
fire s none now = s
fire s (some t) now = expire s t.armed_for now

unfoldable pub on_timeout : Hook → ℕ → Hook
unfolding fire
on_timeout s now = fire s s.timer now
