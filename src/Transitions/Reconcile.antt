-- ===== src/Transitions/Reconcile.antt =====
-- What `reconcileTransitions` leaves pending (resources/js/hooks/use-process-transitions.ts).
use horizon_new_dawn.Base.{
  String, Bool, true, false, not, ◌||◌, ◌≡◌, refl, ◌∙◌, inl, inr, Bool-cases, Option, none, some,
  [], ◌∷◌, arith, if◌then◌else◌, string_eq,
}
use horizon_new_dawn.Base.Dict.{Dict, lookup, erase, lookup-erase, erase-NodupKeys, NodupKeys, only}
use horizon_new_dawn.Transitions.Model.{
  DashboardSupervisors, PendingTransition, PendingProcessTransitions, same, apply, groups_by_name,
  children_by_id, instance_done, supervisor_done, prune, reconcile_transitions,
}

-- Each key has one pending transition, as in an object.
pub record IsValid (t : PendingProcessTransitions) : Type 0 where
  pub instances : NodupKeys t.instances
  pub supervisors : NodupKeys t.supervisors

abbrev pub Done : Type 0
Done = String → PendingTransition → Bool

-- What the loop leaves at a key that the entries `todo` may settle.
abbrev left_at :
    Done → String → Option PendingTransition → Option PendingTransition → Option PendingTransition
left_at done key none left = left
left_at done key (some t) left = if done key t then none else left

lookup-prune :
    (done : Done) (todo left : Dict String PendingTransition) (changed : Bool) (key : String)
    → NodupKeys todo
    → lookup key (prune done todo left changed).0
      ≡ left_at done key (lookup key todo) (lookup key left)
unfolding prune lookup
lookup-prune done [] left changed key u = refl
lookup-prune done ((j, t) ∷ todo) left changed key (fresh, u) = ground (
  arith,
  lookup-prune done todo (if done j t then erase j left else left) (done j t || changed) key u,
  lookup-erase j key left,
)

prune-NodupKeys :
    (done : Done) (todo left : Dict String PendingTransition) (changed : Bool)
    → NodupKeys left
    → NodupKeys (prune done todo left changed).0
unfolding prune
prune-NodupKeys done [] left changed u = u
prune-NodupKeys done ((j, t) ∷ todo) left changed u =
    prune-NodupKeys done todo (if done j t then erase j left else left) (done j t || changed)
      (kept (done j t))
  where
    kept : (settled : Bool) → NodupKeys (if settled then erase j left else left)
    kept true = erase-NodupKeys j left u
    kept false = u

-- Some entry of the list passes the test.
unfoldable pub any_entry : Done → Dict String PendingTransition → Bool
any_entry done [] = false
any_entry done ((key, t) ∷ d) = done key t || any_entry done d

changed-prune :
    (done : Done) (todo left : Dict String PendingTransition) (changed : Bool)
    → (prune done todo left changed).1 ≡ any_entry done todo || changed
unfolding prune any_entry
changed-prune done [] left changed = refl
changed-prune done ((j, t) ∷ todo) left changed =
    ground (
      arith,
      changed-prune done todo (if done j t then erase j left else left) (done j t || changed),
    )

-- In a dictionary where nothing passes the test, no lookup does.
lookup_of_none_done :
    (done : Done) (d : Dict String PendingTransition) (key : String)
    → any_entry done d ≡ false
    → only (λ t. not (done key t)) (lookup key d) ≡ lookup key d
unfolding any_entry lookup
lookup_of_none_done done [] key h = refl
lookup_of_none_done done ((j, t) ∷ d) key h = ground (arith, lookup_of_none_done done d key)

none_done_of_lookup :
    (done : Done) (d : Dict String PendingTransition)
    → NodupKeys d
    → ((key : String) → only (λ t. not (done key t)) (lookup key d) ≡ lookup key d)
    → any_entry done d ≡ false
unfolding any_entry lookup
none_done_of_lookup done [] u h = refl
none_done_of_lookup done ((j, t) ∷ d) (fresh, u) h =
    ground (arith, h j, none_done_of_lookup done d u (λ key. ground (arith, h key)))

left_at_self :
    (done : Done) (key : String) (o : Option PendingTransition)
    → left_at done key o o ≡ only (λ t. not (done key t)) o
left_at_self done key none = refl
left_at_self done key (some t) = ground arith

-- Pruning a dictionary of itself leaves exactly what is not done with.
lookup-prune_self :
    (done : Done) (d : Dict String PendingTransition) (changed : Bool) (key : String)
    → NodupKeys d
    → lookup key (prune done d d changed).0 ≡ only (λ t. not (done key t)) (lookup key d)
lookup-prune_self done d changed key u =
    lookup-prune done d d changed key u ∙ left_at_self done key (lookup key d)

abbrev pub instance_undone :
    DashboardSupervisors → String → Option PendingTransition → Option PendingTransition
instance_undone s name o =
    if s.available then only (λ t. not (instance_done (groups_by_name s) name t)) o else o

abbrev pub supervisor_undone :
    DashboardSupervisors → String → Option PendingTransition → Option PendingTransition
supervisor_undone s id o =
    if s.available then only (λ t. not (supervisor_done (children_by_id s) id t)) o else o

pub lookup-reconcile_done :
    (t : PendingProcessTransitions) (s : DashboardSupervisors)
    → IsValid t
    → let t' = apply (reconcile_transitions t s) t in
      ((name : String)
        → lookup name t'.instances ≡ instance_undone s name (lookup name t.instances))
      × ((id : String)
          → lookup id t'.supervisors ≡ supervisor_undone s id (lookup id t.supervisors))
unfolding reconcile_transitions
lookup-reconcile_done t s v =
    let done = instance_done (groups_by_name s) in
    let done' = supervisor_done (children_by_id s) in
    let flag = changed-prune done t.instances t.instances false in
    let flag' =
      changed-prune done' t.supervisors t.supervisors
        (prune done t.instances t.instances false).1 in
    (
      λ name. ground (
        arith,
        flag,
        flag',
        lookup-prune_self done t.instances false name v.instances,
        lookup_of_none_done done t.instances name,
      ),
      λ id. ground (
        arith,
        flag,
        flag',
        lookup-prune_self done' t.supervisors (prune done t.instances t.instances false).1 id
            v.supervisors,
        lookup_of_none_done done' t.supervisors id,
      ),
    )

pub reconcile_transitions-IsValid :
    (t : PendingProcessTransitions) (s : DashboardSupervisors)
    → IsValid t
    → IsValid (apply (reconcile_transitions t s) t)
unfolding reconcile_transitions
reconcile_transitions-IsValid t s v =
    let done = instance_done (groups_by_name s) in
    let done' = supervisor_done (children_by_id s) in
    let changed = (prune done t.instances t.instances false).1 in
    ground (
      arith,
      prune-NodupKeys done t.instances t.instances false v.instances,
      prune-NodupKeys done' t.supervisors t.supervisors changed v.supervisors,
    )

-- Nothing in `d` is done with.
abbrev Waits : Done → Dict String PendingTransition → Type 0
Waits done d = (key : String) → only (λ t. not (done key t)) (lookup key d) ≡ lookup key d

only_twice :
    (p : PendingTransition → Bool) (o : Option PendingTransition) → only p (only p o) ≡ only p o
only_twice p none = refl
only_twice p (some t) = ground arith

Waits-of_left :
    (done : Done) (d d' : Dict String PendingTransition)
    → ((key : String) → lookup key d' ≡ only (λ t. not (done key t)) (lookup key d))
    → Waits done d'
Waits-of_left done d d' left key =
    ground (arith, left key, only_twice (λ t. not (done key t)) (lookup key d))

same_of_Waits :
    (t : PendingProcessTransitions) (s : DashboardSupervisors)
    → IsValid t
    → Waits (instance_done (groups_by_name s)) t.instances
    → Waits (supervisor_done (children_by_id s)) t.supervisors
    → reconcile_transitions t s ≡ same
unfolding reconcile_transitions
same_of_Waits t s v wait wait' =
    let done = instance_done (groups_by_name s) in
    let done' = supervisor_done (children_by_id s) in
    let changed = (prune done t.instances t.instances false).1 in
    ground (
      arith,
      changed-prune done t.instances t.instances false,
      changed-prune done' t.supervisors t.supervisors changed,
      none_done_of_lookup done t.instances v.instances wait,
      none_done_of_lookup done' t.supervisors v.supervisors wait',
    )

same_of_unavailable :
    (t : PendingProcessTransitions) (s : DashboardSupervisors)
    → s.available ≡ false
    → reconcile_transitions t s ≡ same
unfolding reconcile_transitions
same_of_unavailable t s h = ground arith

-- A second reconciliation of valid transitions with the same report returns its argument: no
-- further state update and no further render follow from one report.
pub reconcile_transitions_idem :
    (t : PendingProcessTransitions) (s : DashboardSupervisors)
    → IsValid t
    → reconcile_transitions (apply (reconcile_transitions t s) t) s ≡ same
reconcile_transitions_idem t s v = elim (Bool-cases s.available) [
  | inr off ↦ same_of_unavailable _ s off
  | inl on ↦
      let t' = apply (reconcile_transitions t s) t in
      let (instances, supervisors) = lookup-reconcile_done t s v in
      same_of_Waits t' s (reconcile_transitions-IsValid t s v)
        (Waits-of_left _ t.instances t'.instances (λ key. ground (arith, instances key)))
        (Waits-of_left _ t.supervisors t'.supervisors (λ key. ground (arith, supervisors key)))
]
