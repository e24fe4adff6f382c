-- ===== src/Transitions/Settled.antt =====
-- Which transitions a report settles (`reconcileTransitions` of resources/js/hooks/use-process-transitions.ts),
-- read off the list of the groups without the maps of the code.
use mathlib.Core.List.{flat_map}
use horizon_new_dawn.Base.{
  String, Bool, true, not, ◌&&◌, ◌≡◌, refl, ap, ◌∙◌, Option, none, some, List, [], ◌∷◌, map, all,
  arith, if◌then◌else◌, ◌==◌, string_eq,
}
use horizon_new_dawn.Base.Dict.{Dict, lookup, insert, lookup-insert, only}
use horizon_new_dawn.Transitions.Model.{
  HorizonTransitionStatus, pausing, continuing, DashboardSupervisors, SupervisorGroup,
  SupervisorItem, PendingTransition, PendingProcessTransitions, apply, group_map, child_map,
  groups_by_name, children_by_id, target_status, statuses, instance_done, supervisor_done,
  reconcile_transitions,
}
use horizon_new_dawn.Transitions.Reconcile.{IsValid, lookup-reconcile_done}

-- The status that the process reports once the transition is over.
abbrev pub wanted : HorizonTransitionStatus → String
wanted pausing = "paused"
wanted continuing = "running"

abbrev pub or_else : {A : Type 0} → Option A → Option A → Option A
or_else none o = o
or_else (some a) o = some a

-- The last element of the list with the key.
unfoldable pub last_with : {A : Type 0} → (A → String) → String → List A → Option A
last_with key k [] = none
last_with key k (x ∷ xs) = or_else (last_with key k xs) (if key x == k then some x else none)

-- There is no instance, or it and all its supervisors have the status.
abbrev pub all_have : String → Option SupervisorGroup → Bool
all_have status none = true
all_have status (some g) = (g.status == status) && all (λ i. i.status == status) g.items

abbrev pub has_status : String → Option SupervisorItem → Bool
has_status status none = true
has_status status (some i) = i.status == status

-- The instance is not reported, or it and all its supervisors have the status that the transition asks for.
abbrev pub instance_settled : DashboardSupervisors → String → PendingTransition → Bool
instance_settled s name t =
    all_have (wanted t.status) (last_with (λ (g : SupervisorGroup). g.name) name s.groups)

-- The supervisor is in no reported group, or has the status that the transition asks for.
abbrev pub supervisor_settled : DashboardSupervisors → String → PendingTransition → Bool
supervisor_settled s id t =
    has_status (wanted t.status)
      (last_with (λ (i : SupervisorItem). i.id) id (flat_map (λ g. g.items) s.groups))

-- What a report leaves of what is pending at a key.
abbrev pub instance_left :
    DashboardSupervisors → String → Option PendingTransition → Option PendingTransition
instance_left s name o = if s.available then only (λ t. not (instance_settled s name t)) o else o

abbrev pub supervisor_left :
    DashboardSupervisors → String → Option PendingTransition → Option PendingTransition
supervisor_left s id o = if s.available then only (λ t. not (supervisor_settled s id t)) o else o

or_else_insert :
    {A : Type 0} (o : Option A) (hit : Bool) (a : A) (before : Option A)
    → or_else o (if hit then some a else before)
      ≡ or_else (or_else o (if hit then some a else none)) before
or_else_insert none hit a before = ground arith
or_else_insert (some b) hit a before = refl

lookup-group_map :
    (name : String) (gs : List SupervisorGroup) (m : Dict String SupervisorGroup)
    → lookup name (group_map gs m)
      ≡ or_else (last_with (λ (g : SupervisorGroup). g.name) name gs) (lookup name m)
unfolding group_map last_with
lookup-group_map name [] m = refl
lookup-group_map name (g ∷ gs) m =
    let later = last_with (λ (g : SupervisorGroup). g.name) name gs in
    lookup-group_map name gs (insert g.name g m)
    ∙ ap (or_else later) (lookup-insert g.name name g m)
    ∙ or_else_insert later (g.name == name) g (lookup name m)

lookup-child_map :
    (id : String) (is : List SupervisorItem) (m : Dict String SupervisorItem)
    → lookup id (child_map is m)
      ≡ or_else (last_with (λ (i : SupervisorItem). i.id) id is) (lookup id m)
unfolding child_map last_with
lookup-child_map id [] m = refl
lookup-child_map id (i ∷ is) m =
    let later = last_with (λ (i : SupervisorItem). i.id) id is in
    lookup-child_map id is (insert i.id i m)
    ∙ ap (or_else later) (lookup-insert i.id id i m)
    ∙ or_else_insert later (i.id == id) i (lookup id m)

or_else-none : {A : Type 0} (o : Option A) → or_else o none ≡ o
or_else-none none = refl
or_else-none (some a) = refl

target_status_lem : (status : HorizonTransitionStatus) → target_status status ≡ wanted status
unfolding target_status
target_status_lem pausing = refl
target_status_lem continuing = refl

all-map :
    {A B : Type 0} (p : B → Bool) (f : A → B) (xs : List A)
    → all p (map f xs) ≡ all (λ x. p (f x)) xs
unfolding all
all-map p f [] = refl
all-map p f (x ∷ xs) = ap (λ b. p (f x) && b) (all-map p f xs)

all-statuses :
    (g : SupervisorGroup) (status : String)
    → all (λ s. s == status) (statuses g)
      ≡ ((g.status == status) && all (λ i. i.status == status) g.items)
unfolding all
all-statuses g status =
    ap (λ b. (g.status == status) && b) (all-map (λ s. s == status) (λ i. i.status) g.items)

group_done_lem :
    (t : PendingTransition) (o : Option SupervisorGroup)
    → elim o [ none ↦ true | some g ↦ all (λ s. s == target_status t.status) (statuses g) ]
      ≡ all_have (wanted t.status) o
group_done_lem t none = refl
group_done_lem t (some g) =
    ap (λ status. all (λ s. s == status) (statuses g)) (target_status_lem t.status)
    ∙ all-statuses g (wanted t.status)

child_done_lem :
    (t : PendingTransition) (o : Option SupervisorItem)
    → elim o [ none ↦ true | some i ↦ i.status == target_status t.status ]
      ≡ has_status (wanted t.status) o
child_done_lem t none = refl
child_done_lem t (some i) = ap (λ status. i.status == status) (target_status_lem t.status)

instance_done_lem :
    (s : DashboardSupervisors) (name : String) (t : PendingTransition)
    → instance_done (groups_by_name s) name t ≡ instance_settled s name t
unfolding instance_done groups_by_name lookup
instance_done_lem s name t =
    let found = last_with (λ (g : SupervisorGroup). g.name) name s.groups in
    ap
      (λ (o : Option SupervisorGroup). elim o [
        | none ↦ true
        | some g ↦ all (λ status. status == target_status t.status) (statuses g)
      ])
      (lookup-group_map name s.groups [] ∙ or_else-none found)
    ∙ group_done_lem t found

supervisor_done_lem :
    (s : DashboardSupervisors) (id : String) (t : PendingTransition)
    → supervisor_done (children_by_id s) id t ≡ supervisor_settled s id t
unfolding supervisor_done children_by_id lookup
supervisor_done_lem s id t =
    let items = flat_map (λ (g : SupervisorGroup). g.items) s.groups in
    let found = last_with (λ (i : SupervisorItem). i.id) id items in
    ap
      (λ (o : Option SupervisorItem). elim o [
        | none ↦ true
        | some i ↦ i.status == target_status t.status
      ])
      (lookup-child_map id items [] ∙ or_else-none found)
    ∙ child_done_lem t found

-- Two tests that agree leave the same.
left_by :
    (available : Bool) (p q : PendingTransition → Bool) (o : Option PendingTransition)
    → ((t : PendingTransition) → p t ≡ q t)
    → (if available then only (λ t. not (p t)) o else o)
      ≡ (if available then only (λ t. not (q t)) o else o)
left_by available p q none same = refl
left_by available p q (some t) same =
    ap (λ b. if available then (if not b then some t else none) else some t) (same t)

-- After a reconciliation of valid transitions with an available report, a transition is pending exactly if it was
-- and the report does not settle it: the report still has the instance, or the supervisor, and the instance or one
-- of its supervisors, or the supervisor, does not have the status asked for, which is "paused" for a pause and
-- "running" for a continue. (Of two reported instances of one name, or supervisors of one id, the last counts.) An
-- unavailable report changes nothing.
pub lookup-reconcile_transitions :
    (t : PendingProcessTransitions) (s : DashboardSupervisors)
    → IsValid t
    → let t' = apply (reconcile_transitions t s) t in
      ((name : String) → lookup name t'.instances ≡ instance_left s name (lookup name t.instances))
      × ((id : String) → lookup id t'.supervisors ≡ supervisor_left s id (lookup id t.supervisors))
lookup-reconcile_transitions t s v =
    let (instances, supervisors) = lookup-reconcile_done t s v in
    (
      λ name.
          instances name
          ∙ left_by s.available (instance_done (groups_by_name s) name) (instance_settled s name)
              (lookup name t.instances) (instance_done_lem s name),
      λ id.
          supervisors id
          ∙ left_by s.available (supervisor_done (children_by_id s) id) (supervisor_settled s id)
              (lookup id t.supervisors) (supervisor_done_lem s id),
    )
