-- ===== src/Transitions/Model.antt =====
-- The types and the pure functions of resources/js/hooks/use-process-transitions.ts. Times are
-- whole milliseconds. An object that a function may return unchanged, by identity, is an `Update`.
use mathlib.Core.List.{flat_map}
use horizon_new_dawn.Base.{
  ℕ, ◌*◌, min, max, String, Bool, true, false, ◌||◌, ◌&&◌, Option, none, some, List, [], ◌∷◌, ◌++◌,
  map, ltb, if◌then◌else◌, ◌==◌, all, length, string_eq, nat_eq,
}
use horizon_new_dawn.Base.Dict.{Dict, lookup, insert, erase, keep_values, values}

pub data HorizonTransitionStatus : Type 0 where
  continuing pausing : HorizonTransitionStatus

pub data ScalingState : Type 0 where
  up down steady : ScalingState

pub data ScalingStrategy : Type 0 where
  time size : ScalingStrategy

pub record SupervisorScaling : Type 0 where
  pub ready_jobs : ℕ
  pub state : ScalingState
  pub strategy : ScalingStrategy
  pub target_processes : ℕ

pub record SupervisorItem : Type 0 where
  pub id : String
  pub name : String
  pub connection : String
  pub queues : List String
  pub processes : ℕ
  pub balancing : String
  pub status : String
  pub scaling : Option SupervisorScaling

pub record SupervisorGroup : Type 0 where
  pub name : String
  pub environment : Option String
  pub pid : Option ℕ
  pub status : String
  pub local : Bool
  pub items : List SupervisorItem

pub record DashboardSupervisors : Type 0 where
  pub available : Bool
  pub groups : List SupervisorGroup
  pub message : Option String

pub record PendingTransition : Type 0 where
  pub status : HorizonTransitionStatus
  pub token : ℕ
  pub expires_at : ℕ

pub record PendingProcessTransitions : Type 0 where
  pub instances : Dict String PendingTransition
  pub supervisors : Dict String PendingTransition

pub record ProcessTransitions : Type 0 where
  pub instances : Dict String HorizonTransitionStatus
  pub supervisors : Dict String HorizonTransitionStatus

abbrev pub fallback_transition_poll_interval : ℕ
fallback_transition_poll_interval = 5000

abbrev pub minimum_transition_timeout : ℕ
minimum_transition_timeout = 30000

abbrev pub transition_poll_attempts : ℕ
transition_poll_attempts = 6

unfoldable pub resolve_process_poll_interval : ℕ → ℕ
resolve_process_poll_interval configured =
    if ltb 0 configured then configured else fallback_transition_poll_interval

unfoldable pub resolve_process_transition_timeout : ℕ → ℕ
unfolding resolve_process_poll_interval
resolve_process_transition_timeout configured =
    max minimum_transition_timeout
      (resolve_process_poll_interval configured * transition_poll_attempts)

abbrev pub empty_pending_transitions : PendingProcessTransitions
empty_pending_transitions = record { instances = []; supervisors = [] }

unfoldable pub target_status : HorizonTransitionStatus → String
target_status pausing = "paused"
target_status continuing = "running"

-- `same` is the argument itself, `replaced` a new object.
pub data Update : Type 0 where
  same : Update
  replaced : PendingProcessTransitions → Update

abbrev pub apply : Update → PendingProcessTransitions → PendingProcessTransitions
apply same t = t
apply (replaced t') t = t'

-- `new Map(supervisors.groups.map((group) => [group.name, group]))`: a later group wins.
unfoldable pub group_map :
    List SupervisorGroup → Dict String SupervisorGroup → Dict String SupervisorGroup
group_map [] m = m
group_map (g ∷ gs) m = group_map gs (insert g.name g m)

unfoldable pub child_map :
    List SupervisorItem → Dict String SupervisorItem → Dict String SupervisorItem
child_map [] m = m
child_map (i ∷ is) m = child_map is (insert i.id i m)

unfoldable pub groups_by_name : DashboardSupervisors → Dict String SupervisorGroup
unfolding group_map
groups_by_name s = group_map s.groups []

unfoldable pub children_by_id : DashboardSupervisors → Dict String SupervisorItem
unfolding child_map
children_by_id s = child_map (flat_map (λ g. g.items) s.groups) []

abbrev pub statuses : SupervisorGroup → List String
statuses g = g.status ∷ map (λ i. i.status) g.items

-- An instance is done with if it is gone, or it and all its supervisors have the status asked for.
unfoldable pub instance_done : Dict String SupervisorGroup → String → PendingTransition → Bool
instance_done groups name t = elim (lookup name groups) [
  | none ↦ true
  | some g ↦ all (λ status. status == target_status t.status) (statuses g)
]

unfoldable pub supervisor_done : Dict String SupervisorItem → String → PendingTransition → Bool
supervisor_done children id t = elim (lookup id children) [
  | none ↦ true
  | some i ↦ i.status == target_status t.status
]

-- One of the two loops of `reconcileTransitions`: over the entries `todo`, with the working copy
-- `left` and the flag `changed`.
unfoldable pub prune :
    (String → PendingTransition → Bool)
    → Dict String PendingTransition
    → Dict String PendingTransition
    → Bool
    → Dict String PendingTransition × Bool
prune done [] left changed = (left, changed)
prune done ((key, t) ∷ todo) left changed =
    prune done todo (if done key t then erase key left else left) (done key t || changed)

unfoldable pub reconcile_transitions : PendingProcessTransitions → DashboardSupervisors → Update
reconcile_transitions transitions supervisors =
    let (instances, changed) =
      prune (instance_done (groups_by_name supervisors)) transitions.instances transitions.instances
        false in
    let (pending, changed') =
      prune (supervisor_done (children_by_id supervisors)) transitions.supervisors
        transitions.supervisors changed in
    if supervisors.available
    then if changed'
      then replaced (record { instances = instances; supervisors = pending })
      else same
    else same

unfoldable pub public_transitions : PendingProcessTransitions → ProcessTransitions
public_transitions t = record {
  instances = map (λ (key, transition). (key, transition.status)) t.instances;
  supervisors = map (λ (key, transition). (key, transition.status)) t.supervisors;
}

-- `Math.min(...expiries)` over what is left of the list, below a value already met.
unfoldable pub least : ℕ → List ℕ → ℕ
least m [] = m
least m (n ∷ ns) = least (min m n) ns

unfoldable pub min_of : List ℕ → Option ℕ
unfolding least
min_of [] = none
min_of (n ∷ ns) = some (least n ns)

unfoldable pub next_expiry : PendingProcessTransitions → Option ℕ
next_expiry t =
    min_of (map (λ entry. entry.expires_at) (values t.instances ++ values t.supervisors))

abbrev pub alive : ℕ → PendingTransition → Bool
alive expired_at t = ltb expired_at t.expires_at

abbrev pub same_length : Dict String PendingTransition → Dict String PendingTransition → Bool
same_length d d' = length d == length d'

unfoldable pub without_expired_transitions : PendingProcessTransitions → ℕ → Update
without_expired_transitions t expired_at =
    let instances = keep_values (alive expired_at) t.instances in
    let supervisors = keep_values (alive expired_at) t.supervisors in
    if same_length instances t.instances && same_length supervisors t.supervisors
    then same
    else replaced (record { instances = instances; supervisors = supervisors })
