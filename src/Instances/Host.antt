-- ===== src/Instances/Host.antt =====
-- What a command's menu is given: `onTransition` and `onTransitionFailure`, as an interface, and what
-- resources/js/hooks/use-process-transitions.ts provides for it.
use horizon_new_dawn.Base.{ℕ, String, ◌≡◌, refl, ap, Option, none, some, List, string_eq, arith}
use horizon_new_dawn.Base.Dict.{lookup}
use horizon_new_dawn.Transitions.Model.{
  HorizonTransitionStatus, DashboardSupervisors, SupervisorGroup, PendingTransition,
}
use horizon_new_dawn.Transitions.Hook.{
  Hook, on_instance_transition, on_supervisor_transition, on_instance_transition_failure,
  on_supervisor_transition_failure, available_groups, fresh_transition,
}
use horizon_new_dawn.Transitions.Effects.{
  InstanceStart, SupervisorStart, on_instance_transition_lem, on_supervisor_transition_lem,
}
use horizon_new_dawn.Transitions.Tokens.{instance_failure_undoes, supervisor_failure_undoes}

-- `Same s t` says that the page's user cannot tell the transitions of `s` and `t` apart.
pub record Host (S : Type 0) : Type 1 where
  pub on_transition : HorizonTransitionStatus → ℕ → S → S × Option ℕ
  pub on_transition_failure : ℕ → S → S
  pub Same : S → S → Type 0
  pub same_refl : (s : S) → Same s s
  pub refused :
      (status : HorizonTransitionStatus) (now : ℕ) (s : S)
      → (on_transition status now s).1 ≡ none
      → (on_transition status now s).0 ≡ s
  pub undone :
      (status : HorizonTransitionStatus) (now : ℕ) (s : S) {token : ℕ}
      → (on_transition status now s).1 ≡ some token
      → Same (on_transition_failure token (on_transition status now s).0) s

-- The same transition at every key.
abbrev pub SameTransitions : Hook → Hook → Type 0
SameTransitions s t =
    ((key : String) → lookup key s.transitions.instances ≡ lookup key t.transitions.instances)
    × ((key : String) → lookup key s.transitions.supervisors ≡ lookup key t.transitions.supervisors)

pub instance_refused :
    (d : Option DashboardSupervisors) (configured : ℕ) (name : String)
    (status : HorizonTransitionStatus) (now : ℕ) (s : Hook)
    → (on_instance_transition d configured s name status now).1 ≡ none
    → (on_instance_transition d configured s name status now).0 ≡ s
instance_refused d configured name status now s h =
    refused_start (available_groups d) s name (fresh_transition s status now configured) _
      (on_instance_transition_lem d configured s name status now) h
  where
    refused_start :
        (groups : List SupervisorGroup) (s : Hook) (name : String) (t : PendingTransition)
        (result : Hook × Option ℕ)
        → InstanceStart groups s name t result
        → result.1 ≡ none
        → result.0 ≡ s
    refused_start groups s name t result (InstanceStart.unknown _ e) h = ap (λ r. r.0) e
    refused_start groups s name t result (InstanceStart.refused g _ _ e) h = ap (λ r. r.0) e
    refused_start groups s name t result (InstanceStart.started g _ _ _ e) h = ground arith

pub supervisor_refused :
    (d : Option DashboardSupervisors) (configured : ℕ) (id : String)
    (status : HorizonTransitionStatus) (now : ℕ) (s : Hook)
    → (on_supervisor_transition d configured s id status now).1 ≡ none
    → (on_supervisor_transition d configured s id status now).0 ≡ s
supervisor_refused d configured id status now s h =
    refused_start (available_groups d) s id (fresh_transition s status now configured) _
      (on_supervisor_transition_lem d configured s id status now) h
  where
    refused_start :
        (groups : List SupervisorGroup) (s : Hook) (id : String) (t : PendingTransition)
        (result : Hook × Option ℕ)
        → SupervisorStart groups s id t result
        → result.1 ≡ none
        → result.0 ≡ s
    refused_start groups s id t result (SupervisorStart.unknown _ e) h = ap (λ r. r.0) e
    refused_start groups s id t result (SupervisorStart.refused g _ _ e) h = ap (λ r. r.0) e
    refused_start groups s id t result (SupervisorStart.started g _ _ _ e) h = ground arith

-- What `HorizonInstance` passes to an instance's menu, with the page's report and polling interval.
abbrev pub instance_host : Option DashboardSupervisors → ℕ → String → Host Hook
instance_host d configured name = record {
  on_transition = λ status now s. on_instance_transition d configured s name status now;
  on_transition_failure = λ token s. on_instance_transition_failure s name token;
  Same = SameTransitions;
  same_refl = λ s. (λ key. refl, λ key. refl);
  refused = λ status now s h. instance_refused d configured name status now s h;
  undone = λ status now s h.
      let (instances, supervisors, _) = instance_failure_undoes d configured s name status now h in
      (instances, λ key. ap (λ dict. lookup key dict) supervisors);
}

-- What it passes to a supervisor's menu.
abbrev pub supervisor_host : Option DashboardSupervisors → ℕ → String → Host Hook
supervisor_host d configured id = record {
  on_transition = λ status now s. on_supervisor_transition d configured s id status now;
  on_transition_failure = λ token s. on_supervisor_transition_failure s id token;
  Same = SameTransitions;
  same_refl = λ s. (λ key. refl, λ key. refl);
  refused = λ status now s h. supervisor_refused d configured id status now s h;
  undone = λ status now s h.
      let (supervisors, instances, _) = supervisor_failure_undoes d configured s id status now h in
      (λ key. ap (λ dict. lookup key dict) instances, supervisors);
}
