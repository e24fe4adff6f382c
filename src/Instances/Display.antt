-- ===== src/Instances/Display.antt =====
-- resources/js/components/dashboard/supervisors-table.tsx: the statuses that the table shows, and which
-- commands it offers.
use horizon_new_dawn.Base.{
  ℕ, ◌+◌, String, Bool, false, not, ◌||◌, Option, none, some, List, [], ◌∷◌, if◌then◌else◌, ◌==◌,
  string_eq, any, keep, length,
}
use horizon_new_dawn.Base.Dict.{lookup}
use horizon_new_dawn.Transitions.Model.{
  HorizonTransitionStatus, pausing, continuing, SupervisorItem, SupervisorGroup, SupervisorScaling,
  ProcessTransitions,
}
use horizon_new_dawn.Transitions.Hook.{defined}
use horizon_new_dawn.Instances.Command.{Command, pause, continue}

-- The types `HorizonStatus` and `HorizonDisplayStatus` of resources/js/types/dashboard.ts.
pub data HorizonStatus : Type 0 where
  running paused inactive unavailable : HorizonStatus

pub data HorizonDisplayStatus : Type 0 where
  reported : HorizonStatus → HorizonDisplayStatus
  changing : HorizonTransitionStatus → HorizonDisplayStatus

unfoldable pub normalize_status : String → HorizonStatus
normalize_status status =
    if status == "running"
    then running
    else if status == "paused"
    then paused
    else if status == "unavailable"
    then unavailable
    else inactive

-- `displayStatus`, of the normalized status.
abbrev pub shown_status : HorizonStatus → Option HorizonTransitionStatus → HorizonDisplayStatus
shown_status running (some pausing) = changing pausing
shown_status paused (some continuing) = changing continuing
shown_status status transition = reported status

unfoldable pub display_status : String → Option HorizonTransitionStatus → HorizonDisplayStatus
display_status status transition = shown_status (normalize_status status) transition

unfoldable pub instance_status : ProcessTransitions → SupervisorGroup → HorizonDisplayStatus
unfolding display_status
instance_status t group = display_status group.status (lookup group.name t.instances)

-- `transitions.supervisors[item.id] ?? transitions.instances[group.name]`
abbrev pub or_instance :
    Option HorizonTransitionStatus → Option HorizonTransitionStatus → Option HorizonTransitionStatus
or_instance none instance_transition = instance_transition
or_instance (some transition) instance_transition = some transition

unfoldable pub supervisor_status :
    ProcessTransitions → SupervisorGroup → SupervisorItem → HorizonDisplayStatus
unfolding display_status
supervisor_status t group item =
    display_status item.status
      (or_instance (lookup item.id t.supervisors) (lookup group.name t.instances))

-- `transitionPending` of an instance's menu, and of a supervisor's.
unfoldable pub instance_transition_pending : ProcessTransitions → SupervisorGroup → Bool
instance_transition_pending t group =
    defined (lookup group.name t.instances)
    || any (λ (i : SupervisorItem). defined (lookup i.id t.supervisors)) group.items

unfoldable pub supervisor_transition_pending :
    ProcessTransitions → SupervisorGroup → SupervisorItem → Bool
supervisor_transition_pending t group item =
    defined (lookup group.name t.instances) || defined (lookup item.id t.supervisors)

-- The trigger of a menu.
unfoldable pub is_available : HorizonDisplayStatus → Bool → Bool
is_available (reported running) transition_pending = not transition_pending
is_available (reported paused) transition_pending = not transition_pending
is_available status transition_pending = false

-- The one item of a menu: its command, and whether it is enabled.
unfoldable pub item : HorizonDisplayStatus → Bool → Command × Bool
item (reported paused) transition_pending = (continue, not transition_pending)
item (reported running) transition_pending = (pause, not transition_pending)
item status transition_pending = (pause, false)

-- The scaling that a row shows.
unfoldable pub shown_scaling :
    Bool → HorizonDisplayStatus → SupervisorItem → Option SupervisorScaling
shown_scaling auto_refresh_enabled (reported running) item =
    if auto_refresh_enabled then item.scaling else none
shown_scaling auto_refresh_enabled status item = none

unfoldable pub supervisor_count : List SupervisorGroup → ℕ
supervisor_count [] = 0
supervisor_count (g ∷ gs) = length g.items + supervisor_count gs

unfoldable pub paused_supervisor_count : List SupervisorGroup → ℕ
paused_supervisor_count [] = 0
paused_supervisor_count (g ∷ gs) =
    length (keep (λ (i : SupervisorItem). i.status == "paused") g.items)
    + paused_supervisor_count gs

unfoldable pub has_local_instance : List SupervisorGroup → Bool
has_local_instance groups = any (λ (g : SupervisorGroup). g.local) groups
