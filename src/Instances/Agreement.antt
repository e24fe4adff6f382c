-- ===== src/Instances/Agreement.antt =====
-- The table (resources/js/components/dashboard/supervisors-table.tsx) and the transitions that it is given
-- (resources/js/hooks/use-process-transitions.ts) agree on which commands may start.
use horizon_new_dawn.Base.{
  ℕ, suc, String, Bool, true, ◌||◌, ◌≡◌, refl, sym, ap, ap₂, ◌∙◌, Option, none, some, List, [], ◌∷◌,
  map, arith, if◌then◌else◌, string_eq, any, find,
}
use horizon_new_dawn.Base.Dict.{Dict, lookup}
use horizon_new_dawn.Transitions.Model.{
  HorizonTransitionStatus, SupervisorItem, SupervisorGroup, DashboardSupervisors, PendingTransition,
  PendingProcessTransitions, ProcessTransitions, public_transitions,
}
use horizon_new_dawn.Transitions.Hook.{
  Hook, defined, named, owns, available_groups, on_instance_transition, on_supervisor_transition,
  fresh_transition,
}
use horizon_new_dawn.Transitions.Effects.{
  InstanceStart, SupervisorStart, busy, on_instance_transition_lem, on_supervisor_transition_lem,
}
use horizon_new_dawn.Transitions.Invariant.{Inv}
use horizon_new_dawn.Instances.Display.{instance_transition_pending, supervisor_transition_pending}

-- The transitions that the hook returns.
abbrev pub shown : Hook → ProcessTransitions
shown s = public_transitions s.pending_transitions

defined-lookup-map :
    (key : String) (d : Dict String PendingTransition)
    → defined (lookup key (map (λ ((k, t) : String × PendingTransition). (k, t.status)) d))
      ≡ defined (lookup key d)
unfolding lookup
defined-lookup-map key [] = refl
defined-lookup-map key ((k, t) ∷ d) = ground (arith, defined-lookup-map key d)

any-defined-lookup-map :
    (items : List SupervisorItem) (d : Dict String PendingTransition)
    → any
        (λ (i : SupervisorItem).
          defined (lookup i.id (map (λ ((k, t) : String × PendingTransition). (k, t.status)) d)))
        items
      ≡ any (λ (i : SupervisorItem). defined (lookup i.id d)) items
unfolding any
any-defined-lookup-map [] d = refl
any-defined-lookup-map (i ∷ is) d =
    ap₂ ◌||◌ (defined-lookup-map i.id d) (any-defined-lookup-map is d)

of_groups :
    (d : DashboardSupervisors) (p : SupervisorGroup → Bool) (group : SupervisorGroup)
    → d.available ≡ true
    → find p d.groups ≡ some group
    → find p (available_groups (some d)) ≡ some group
of_groups d p group available found = rw available found

instance_answer :
    (groups : List SupervisorGroup) (s : Hook) (group : SupervisorGroup) (t : PendingTransition)
    (result : Hook × Option ℕ)
    → InstanceStart groups s group.name t result
    → find (named group.name) groups ≡ some group
    → result.1 ≡ (
        if defined (lookup group.name s.transitions.instances) || busy s group
        then none
        else some (suc s.next_token))
instance_answer groups s group t result (InstanceStart.unknown absent e) found =
    ground (arith, absent, found)
instance_answer groups s group t result (InstanceStart.refused g there held e) found =
    let same : g ≡ group = cc in
    let held' =
      ap (λ x. defined (lookup group.name s.transitions.instances) || busy s x) (sym same) ∙ held in
    ap (λ r. r.1) e ∙ sym (ap (λ b. if b then none else some (suc s.next_token)) held')
instance_answer groups s group t result (InstanceStart.started g there free idle e) found =
    let same : g ≡ group = cc in
    let idle' = ap (λ x. busy s x) (sym same) ∙ idle in
    ap (λ r. r.1) e
    ∙ sym (ap (λ b. if b then none else some (suc s.next_token)) (ap₂ ◌||◌ (ap defined free) idle'))

-- In a state that keeps the invariant, for an instance that an available report has: a transition starts
-- exactly if the table does not show it or one of its supervisors as changing.
pub instance_offer_accepted :
    (d : DashboardSupervisors) (configured : ℕ) (s : Hook) (group : SupervisorGroup)
    (status : HorizonTransitionStatus) (now : ℕ)
    → Inv s
    → d.available ≡ true
    → find (named group.name) d.groups ≡ some group
    → (on_instance_transition (some d) configured s group.name status now).1
      ≡ (if instance_transition_pending (shown s) group then none else some (suc s.next_token))
unfolding instance_transition_pending public_transitions
instance_offer_accepted d configured s group status now inv available found =
    instance_answer (available_groups (some d)) s group (fresh_transition s status now configured) _
      (on_instance_transition_lem (some d) configured s group.name status now)
      (of_groups d (named group.name) group available found)
    ∙ ap (λ held. if held then none else some (suc s.next_token))
        (ap
            (λ (p : PendingProcessTransitions).
              defined (lookup group.name p.instances)
              || any (λ (i : SupervisorItem). defined (lookup i.id p.supervisors)) group.items)
            (sym inv.sound.shown)
          ∙ sym (
              ap₂ ◌||◌ (defined-lookup-map group.name s.pending_transitions.instances)
                (any-defined-lookup-map group.items s.pending_transitions.supervisors)))

supervisor_answer :
    (groups : List SupervisorGroup) (s : Hook) (group : SupervisorGroup) (id : String)
    (t : PendingTransition) (result : Hook × Option ℕ)
    → SupervisorStart groups s id t result
    → find (owns id) groups ≡ some group
    → result.1 ≡ (
        if defined (lookup group.name s.transitions.instances)
          || defined (lookup id s.transitions.supervisors)
        then none
        else some (suc s.next_token))
supervisor_answer groups s group id t result (SupervisorStart.unknown absent e) found =
    ground (arith, absent, found)
supervisor_answer groups s group id t result (SupervisorStart.refused g there held e) found =
    let same : g ≡ group = cc in
    let held' =
      ap
        (λ (x : SupervisorGroup).
          defined (lookup x.name s.transitions.instances)
          || defined (lookup id s.transitions.supervisors))
        (sym same)
      ∙ held in
    ap (λ r. r.1) e ∙ sym (ap (λ b. if b then none else some (suc s.next_token)) held')
supervisor_answer groups s group id t result (SupervisorStart.started g there free idle e) found =
    let same : g ≡ group = cc in
    let free' =
      ap (λ (x : SupervisorGroup). lookup x.name s.transitions.instances) (sym same) ∙ free in
    ap (λ r. r.1) e
    ∙ sym (
        ap (λ b. if b then none else some (suc s.next_token))
          (ap₂ ◌||◌ (ap defined free') (ap defined idle)))

-- In a state that keeps the invariant, for a supervisor of an instance that an available report has, first
-- of those with it: a transition starts exactly if the table shows neither as changing.
pub supervisor_offer_accepted :
    (d : DashboardSupervisors) (configured : ℕ) (s : Hook) (group : SupervisorGroup)
    (item : SupervisorItem) (status : HorizonTransitionStatus) (now : ℕ)
    → Inv s
    → d.available ≡ true
    → find (owns item.id) d.groups ≡ some group
    → (on_supervisor_transition (some d) configured s item.id status now).1 ≡ (
        if supervisor_transition_pending (shown s) group item
        then none
        else some (suc s.next_token))
unfolding supervisor_transition_pending public_transitions
supervisor_offer_accepted d configured s group item status now inv available found =
    supervisor_answer (available_groups (some d)) s group item.id
      (fresh_transition s status now configured) _
      (on_supervisor_transition_lem (some d) configured s item.id status now)
      (of_groups d (owns item.id) group available found)
    ∙ ap (λ held. if held then none else some (suc s.next_token))
        (ap
            (λ (p : PendingProcessTransitions).
              defined (lookup group.name p.instances) || defined (lookup item.id p.supervisors))
            (sym inv.sound.shown)
          ∙ sym (
              ap₂ ◌||◌ (defined-lookup-map group.name s.pending_transitions.instances)
                (defined-lookup-map item.id s.pending_transitions.supervisors)))
