-- ===== src/Transitions/Effects.antt =====
-- What each handler of `useProcessTransitions` does to the pending transitions (resources/js/hooks/
-- use-process-transitions.ts): a start adds one or nothing, every other handler only removes.
use horizon_new_dawn.Base.{
  ℕ, suc, String, Bool, true, false, ◌||◌, ◌≡◌, refl, ◌⊎◌, inl, inr, Option, Option-cases,
  Bool-cases, none, some, List, arith, string_eq, nat_eq, find, any,
}
use horizon_new_dawn.Base.Dict.{lookup, lookup-erase, only}
use horizon_new_dawn.Transitions.Model.{
  HorizonTransitionStatus, SupervisorGroup, SupervisorItem, DashboardSupervisors, PendingTransition,
  PendingProcessTransitions, Update, same, replaced, apply, alive, reconcile_transitions,
  without_expired_transitions,
}
use horizon_new_dawn.Transitions.Hook.{
  Hook, named, owns, defined, available_groups, fresh_transition, with_instance, with_supervisor,
  commit_transitions, on_supervisors, on_instance_transition, on_supervisor_transition,
  on_instance_transition_failure, on_supervisor_transition_failure, finish_expiry, on_timeout,
}
use horizon_new_dawn.Transitions.Reconcile.{IsValid, lookup-reconcile_done}
use horizon_new_dawn.Transitions.Expiry.{lookup-without_expired}

-- A value is gone, or as it was.
abbrev pub Kept {ℓ} : {A : Type ℓ} → Option A → Option A → Type ℓ
Kept o' o = (o' ≡ none) ⊎ (o' ≡ o)

-- `t'` has nothing pending that `t` has not.
abbrev pub Shrinks : PendingProcessTransitions → PendingProcessTransitions → Type 0
Shrinks t' t =
    ((key : String) → Kept (lookup key t'.instances) (lookup key t.instances))
    × ((key : String) → Kept (lookup key t'.supervisors) (lookup key t.supervisors))

Kept-only : (p : PendingTransition → Bool) (o : Option PendingTransition) → Kept (only p o) o
Kept-only p none = inl refl
Kept-only p (some t) = ground arith

pub Shrinks-refl : (t : PendingProcessTransitions) → Shrinks t t
Shrinks-refl t = (λ key. inr refl, λ key. inr refl)

reconcile-Shrinks :
    (t : PendingProcessTransitions) (d : DashboardSupervisors)
    → IsValid t
    → Shrinks (apply (reconcile_transitions t d) t) t
reconcile-Shrinks t d v =
    let (instances, supervisors) = lookup-reconcile_done t d v in
    (λ key. ground (arith, instances key), λ key. ground (arith, supervisors key))

expired-Shrinks :
    (t : PendingProcessTransitions) (now : ℕ)
    → IsValid t
    → Shrinks (apply (without_expired_transitions t now) t) t
expired-Shrinks t now v = (
  λ key. rw (lookup-without_expired t now key v).0 (Kept-only (alive now) (lookup key t.instances)),
  λ key.
      rw (lookup-without_expired t now key v).1 (Kept-only (alive now) (lookup key t.supervisors)),
)

commit-Shrinks :
    (s : Hook) (u : Update)
    → Shrinks (apply u s.transitions) s.transitions
    → Shrinks (commit_transitions s u).transitions s.transitions
unfolding commit_transitions
commit-Shrinks s same h = h
commit-Shrinks s (replaced t) h = h

pub on_supervisors-Shrinks :
    (s : Hook) (d : Option DashboardSupervisors)
    → IsValid s.transitions
    → Shrinks (on_supervisors s d).transitions s.transitions
unfolding on_supervisors
on_supervisors-Shrinks s none v = Shrinks-refl s.transitions
on_supervisors-Shrinks s (some d) v =
    commit-Shrinks s (reconcile_transitions s.transitions d) (reconcile-Shrinks s.transitions d v)

pub instance_failure-Shrinks :
    (s : Hook) (name : String) (token : ℕ)
    → Shrinks (on_instance_transition_failure s name token).transitions s.transitions
unfolding on_instance_transition_failure
instance_failure-Shrinks s name token =
    (λ key. ground (arith, lookup-erase name key s.transitions.instances), λ key. ground arith)

pub supervisor_failure-Shrinks :
    (s : Hook) (id : String) (token : ℕ)
    → Shrinks (on_supervisor_transition_failure s id token).transitions s.transitions
unfolding on_supervisor_transition_failure
supervisor_failure-Shrinks s id token =
    (λ key. ground arith, λ key. ground (arith, lookup-erase id key s.transitions.supervisors))

finish_expiry-transitions :
    (s : Hook) (u : Update) → (finish_expiry s u).transitions ≡ apply u s.transitions
unfolding finish_expiry
finish_expiry-transitions s same = refl
finish_expiry-transitions s (replaced t) = refl

pub on_timeout-Shrinks :
    (s : Hook) (now : ℕ)
    → IsValid s.transitions
    → Shrinks (on_timeout s now).transitions s.transitions
unfolding on_timeout
on_timeout-Shrinks s now v = (
  λ key. ground (arith, (expired-Shrinks s.transitions now v).0 key),
  λ key. ground (arith, (expired-Shrinks s.transitions now v).1 key),
)

abbrev pub busy : Hook → SupervisorGroup → Bool
busy s g = any (λ (i : SupervisorItem). defined (lookup i.id s.transitions.supervisors)) g.items

-- How a request for an instance ends.
pub data InstanceStart (groups : List SupervisorGroup) (s : Hook) (name : String)
    (t : PendingTransition) (result : Hook × Option ℕ) : Type 0 where
  unknown :
      find (named name) groups ≡ none → result ≡ (s, none) → InstanceStart groups s name t result
  refused :
      (g : SupervisorGroup)
      → find (named name) groups ≡ some g
      → (defined (lookup name s.transitions.instances) || busy s g) ≡ true
      → result ≡ (s, none)
      → InstanceStart groups s name t result
  started :
      (g : SupervisorGroup)
      → find (named name) groups ≡ some g
      → lookup name s.transitions.instances ≡ none
      → busy s g ≡ false
      → result ≡ (with_instance s name t, some (suc s.next_token))
      → InstanceStart groups s name t result

-- An instance's transition starts exactly if the report has the instance, and neither it nor one of its
-- supervisors has one pending; a refusal changes nothing.
pub on_instance_transition_lem :
    (d : Option DashboardSupervisors) (configured : ℕ) (s : Hook) (name : String)
    (status : HorizonTransitionStatus) (now : ℕ)
    → InstanceStart
        (available_groups d)
        s
        name
        (fresh_transition s status now configured)
        (on_instance_transition d configured s name status now)
unfolding on_instance_transition
on_instance_transition_lem d configured s name status now =
    elim (Option-cases (find (named name) (available_groups d))) [
      | inl none' ↦ InstanceStart.unknown none' (ground arith)
      | inr (g, known) ↦
          elim (Bool-cases (defined (lookup name s.transitions.instances) || busy s g)) [
            | inl guard ↦ InstanceStart.refused g known guard (ground arith)
            | inr free ↦ InstanceStart.started g known (ground arith) (ground arith) (ground arith)
          ]
    ]

pub data SupervisorStart (groups : List SupervisorGroup) (s : Hook) (id : String)
    (t : PendingTransition) (result : Hook × Option ℕ) : Type 0 where
  unknown : find (owns id) groups ≡ none → result ≡ (s, none) → SupervisorStart groups s id t result
  refused :
      (g : SupervisorGroup)
      → find (owns id) groups ≡ some g
      → (defined (lookup g.name s.transitions.instances)
          || defined (lookup id s.transitions.supervisors))
        ≡ true
      → result ≡ (s, none)
      → SupervisorStart groups s id t result
  started :
      (g : SupervisorGroup)
      → find (owns id) groups ≡ some g
      → lookup g.name s.transitions.instances ≡ none
      → lookup id s.transitions.supervisors ≡ none
      → result ≡ (with_supervisor s id t, some (suc s.next_token))
      → SupervisorStart groups s id t result

-- A supervisor's transition starts exactly if the report has it in an instance, and neither that
-- instance nor it has one pending; a refusal changes nothing.
pub on_supervisor_transition_lem :
    (d : Option DashboardSupervisors) (configured : ℕ) (s : Hook) (id : String)
    (status : HorizonTransitionStatus) (now : ℕ)
    → SupervisorStart
        (available_groups d)
        s
        id
        (fresh_transition s status now configured)
        (on_supervisor_transition d configured s id status now)
unfolding on_supervisor_transition
on_supervisor_transition_lem d configured s id status now =
    elim (Option-cases (find (owns id) (available_groups d))) [
      | inl none' ↦ SupervisorStart.unknown none' (ground arith)
      | inr (g, known) ↦
          elim (Bool-cases (
            defined (lookup g.name s.transitions.instances)
            || defined (lookup id s.transitions.supervisors))) [
              | inl guard ↦ SupervisorStart.refused g known guard (ground arith)
              | inr free ↦
                  SupervisorStart.started g known (ground arith) (ground arith) (ground arith)
            ]
    ]
