-- ===== src/Transitions/Tokens.antt =====
-- The tokens of requests, and reports of failed requests (resources/js/hooks/
-- use-process-transitions.ts).
use horizon_new_dawn.Base.{
  ℕ, suc, ◌≤◌, ◌<◌, ap, String, ◌≡◌, Option, none, some, List, [], ◌∷◌, arith, string_eq, nat_eq,
}
use horizon_new_dawn.Base.Dict.{lookup, insert, lookup-insert, lookup-erase}
use horizon_new_dawn.Transitions.Model.{
  HorizonTransitionStatus, SupervisorGroup, DashboardSupervisors, PendingTransition,
}
use horizon_new_dawn.Transitions.Hook.{
  Hook, available_groups, fresh_transition, with_instance, with_supervisor, on_instance_transition,
  on_supervisor_transition, on_supervisors, on_timeout, on_instance_transition_failure,
  on_supervisor_transition_failure, run_expiry_effect,
}
use horizon_new_dawn.Transitions.Effects.{
  InstanceStart, SupervisorStart, on_instance_transition_lem, on_supervisor_transition_lem,
}
use horizon_new_dawn.Transitions.Run.{Event, handle, step, run}

with_instance_undone :
    (s : Hook) (name : String) (t : PendingTransition)
    → lookup name s.transitions.instances ≡ none
    → let s'' = on_instance_transition_failure (with_instance s name t) name t.token in
      ((key : String) → lookup key s''.transitions.instances ≡ lookup key s.transitions.instances)
      × (s''.transitions.supervisors ≡ s.transitions.supervisors)
      × (s''.next_token ≡ suc s.next_token)
unfolding on_instance_transition_failure
with_instance_undone s name t free = (
  λ key. ground (
    arith,
    lookup-insert name name t s.transitions.instances,
    lookup-insert name key t s.transitions.instances,
    lookup-erase name key (insert name t s.transitions.instances),
  ),
  ground (arith, lookup-insert name name t s.transitions.instances),
  ground (arith, lookup-insert name name t s.transitions.instances),
)

with_supervisor_undone :
    (s : Hook) (id : String) (t : PendingTransition)
    → lookup id s.transitions.supervisors ≡ none
    → let s'' = on_supervisor_transition_failure (with_supervisor s id t) id t.token in
      ((key : String)
        → lookup key s''.transitions.supervisors ≡ lookup key s.transitions.supervisors)
      × (s''.transitions.instances ≡ s.transitions.instances)
      × (s''.next_token ≡ suc s.next_token)
unfolding on_supervisor_transition_failure
with_supervisor_undone s id t free = (
  λ key. ground (
    arith,
    lookup-insert id id t s.transitions.supervisors,
    lookup-insert id key t s.transitions.supervisors,
    lookup-erase id key (insert id t s.transitions.supervisors),
  ),
  ground (arith, lookup-insert id id t s.transitions.supervisors),
  ground (arith, lookup-insert id id t s.transitions.supervisors),
)

-- A start that returned a token added one transition with it.
instance_started :
    (groups : List SupervisorGroup) (s : Hook) (name : String) (t : PendingTransition)
    (result : Hook × Option ℕ) {token : ℕ}
    → InstanceStart groups s name t result
    → result.1 ≡ some token
    → (lookup name s.transitions.instances ≡ none)
      × (result.0 ≡ with_instance s name t)
      × (token ≡ suc s.next_token)
instance_started groups s name t result (InstanceStart.unknown _ e) h = ground arith
instance_started groups s name t result (InstanceStart.refused g _ _ e) h = ground arith
instance_started groups s name t result (InstanceStart.started g _ free _ e) h =
    (free, ground arith, ground arith)

supervisor_started :
    (groups : List SupervisorGroup) (s : Hook) (id : String) (t : PendingTransition)
    (result : Hook × Option ℕ) {token : ℕ}
    → SupervisorStart groups s id t result
    → result.1 ≡ some token
    → (lookup id s.transitions.supervisors ≡ none)
      × (result.0 ≡ with_supervisor s id t)
      × (token ≡ suc s.next_token)
supervisor_started groups s id t result (SupervisorStart.unknown _ e) h = ground arith
supervisor_started groups s id t result (SupervisorStart.refused g _ _ e) h = ground arith
supervisor_started groups s id t result (SupervisorStart.started g _ _ free e) h =
    (free, ground arith, ground arith)

-- A failure report with the token that the start of an instance's transition returned undoes the
-- start: each instance has what it had before, the supervisors are unchanged, and the counter is
-- at that token, so that it is not given out again.
pub instance_failure_undoes :
    (d : Option DashboardSupervisors) (configured : ℕ) (s : Hook) (name : String)
    (status : HorizonTransitionStatus) (now : ℕ) {token : ℕ}
    → (on_instance_transition d configured s name status now).1 ≡ some token
    → let s' = (on_instance_transition d configured s name status now).0 in
      let s'' = on_instance_transition_failure s' name token in
      ((key : String) → lookup key s''.transitions.instances ≡ lookup key s.transitions.instances)
      × (s''.transitions.supervisors ≡ s.transitions.supervisors)
      × (s''.next_token ≡ token)
unfolding fresh_transition
instance_failure_undoes d configured s name status now {token} h =
    let t = fresh_transition s status now configured in
    let (free, added, given) =
      instance_started (available_groups d) s name t _
        (on_instance_transition_lem d configured s name status now) h in
    rw (added, given) (with_instance_undone s name t free)

-- A failure report with the token that the start of a supervisor's transition returned undoes the
-- start: each supervisor has what it had before, the instances are unchanged, and the counter is
-- at that token, so that it is not given out again.
pub supervisor_failure_undoes :
    (d : Option DashboardSupervisors) (configured : ℕ) (s : Hook) (id : String)
    (status : HorizonTransitionStatus) (now : ℕ) {token : ℕ}
    → (on_supervisor_transition d configured s id status now).1 ≡ some token
    → let s' = (on_supervisor_transition d configured s id status now).0 in
      let s'' = on_supervisor_transition_failure s' id token in
      ((key : String)
        → lookup key s''.transitions.supervisors ≡ lookup key s.transitions.supervisors)
      × (s''.transitions.instances ≡ s.transitions.instances)
      × (s''.next_token ≡ token)
unfolding fresh_transition
supervisor_failure_undoes d configured s id status now {token} h =
    let t = fresh_transition s status now configured in
    let (free, added, given) =
      supervisor_started (available_groups d) s id t _
        (on_supervisor_transition_lem d configured s id status now) h in
    rw (added, given) (with_supervisor_undone s id t free)

handle-next_token : (s : Hook) (e : Event) (now : ℕ) → s.next_token ≤ (handle s e now).next_token
unfolding handle on_supervisors on_instance_transition on_supervisor_transition
    on_instance_transition_failure on_supervisor_transition_failure on_timeout
handle-next_token s (Event.report none) now = omega arith
handle-next_token s (Event.report (some d)) now = ground arith
handle-next_token s (Event.instance_transition d configured name status) now = ground arith
handle-next_token s (Event.supervisor_transition d configured id status) now = ground arith
handle-next_token s (Event.instance_failure name token) now = ground arith
handle-next_token s (Event.supervisor_failure id token) now = ground arith
handle-next_token s Event.timeout now = ground arith

step-next_token : (s : Hook) (e : Event) (now : ℕ) → s.next_token ≤ (step s e now).next_token
unfolding step run_expiry_effect
step-next_token s e now = ground (arith, handle-next_token s e now)

run-next_token : (es : List (ℕ × Event)) (s : Hook) → s.next_token ≤ (run s es).next_token
unfolding run
run-next_token [] s = omega arith
run-next_token ((now, e) ∷ es) s =
    omega (arith, step-next_token s e now, run-next_token es (step s e now))

other_token :
    (s : Hook) (name : String) (t : PendingTransition) (token : ℕ)
    → token < t.token
    → on_instance_transition_failure (with_instance s name t) name token ≡ with_instance s name t
unfolding on_instance_transition_failure
other_token s name t token lt = ground (arith, lookup-insert name name t s.transitions.instances)

-- The failure of a request that arrives late never undoes a later request for the same instance,
-- whatever happened in between.
pub late_failure_ignored :
    (d d' : Option DashboardSupervisors) (configured configured' : ℕ) (s : Hook) (name : String)
    (status status' : HorizonTransitionStatus) (now now' : ℕ) (es : List (ℕ × Event))
    {token token' : ℕ}
    → (on_instance_transition d configured s name status now).1 ≡ some token
    → (on_instance_transition d' configured'
        (run (on_instance_transition d configured s name status now).0 es)
        name
        status'
        now').1
      ≡ some token'
    → let s' = run (on_instance_transition d configured s name status now).0 es in
      let later = on_instance_transition d' configured' s' name status' now' in
      on_instance_transition_failure later.0 name token ≡ later.0
unfolding fresh_transition
late_failure_ignored d d' configured configured' s name status status' now now' es h h' =
    let s1 = (on_instance_transition d configured s name status now).0 in
    let s' = run s1 es in
    let t = fresh_transition s status now configured in
    let t' = fresh_transition s' status' now' configured' in
    let (_, added, given) =
      instance_started (available_groups d) s name t _
        (on_instance_transition_lem d configured s name status now) h in
    let (_, added', given') =
      instance_started (available_groups d') s' name t' _
        (on_instance_transition_lem d' configured' s' name status' now') h' in
    let grown = run-next_token es s1 in
    rw added' (
      other_token s' name t' _ (omega (arith, given, grown, ap (λ (x : Hook). x.next_token) added)))
