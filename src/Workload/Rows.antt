-- ===== src/Workload/Rows.antt =====
-- `WorkloadRows` of resources/js/components/dashboard/workload-table.tsx, with the badge of
-- resources/js/components/queues/queue-wait-threshold.tsx and the types of resources/js/types. The text of a
-- number is a parameter.
use horizon_new_dawn.Base.{
  ℕ, ◌≤◌, String, ◌<>◌, Bool, true, false, ◌&&◌, ◌≡◌, refl, Option, none, some, List, [], ◌∷◌,
  arith, ltb, length, keep, all, any, if◌then◌else◌, ◌==◌, nat_eq, Bool-cases, inl, inr,
}

pub data WaitThresholdStatus : Type 0 where
  exceeded calculating within_bounds disabled : WaitThresholdStatus

-- `queueWaitThresholdSortRank`
unfoldable pub sort_rank : WaitThresholdStatus → ℕ
sort_rank exceeded = 0
sort_rank calculating = 1
sort_rank disabled = 2
sort_rank within_bounds = 3

-- A queue of a pool, and a row: what the cells of this file need of them. `status` is that of the wait
-- threshold, if there is one.
pub record SplitQueue : Type 0 where
  pub name : String
  pub wait : ℕ
  pub ready : ℕ
  pub status : Option WaitThresholdStatus

pub record Item : Type 0 where
  pub name : String
  pub wait : ℕ
  pub ready : ℕ
  pub status : Option WaitThresholdStatus
  pub split_queues : Option (List SplitQueue)

-- A dash with its description, or a badge with its label.
pub data Badge : Type 0 where
  dash : String → Badge
  badge : WaitThresholdStatus → String → Badge

abbrev pub or_label : Option String → String → String
or_label none standard = standard
or_label (some label) standard = label

-- `QueueWaitThresholdBadge`
unfoldable pub queue_wait_threshold_badge : WaitThresholdStatus → Option String → Badge
queue_wait_threshold_badge exceeded label = badge exceeded (or_label label "Exceeded")
queue_wait_threshold_badge within_bounds label =
    badge within_bounds (or_label label "Within bounds")
queue_wait_threshold_badge calculating label = dash "Waiting for runtime data"
queue_wait_threshold_badge disabled label = dash "Wait monitoring disabled"

abbrev pub or_disabled : Option WaitThresholdStatus → WaitThresholdStatus
or_disabled none = disabled
or_disabled (some status) = status

-- `QueueWaitThresholdCell`
unfoldable pub queue_wait_threshold_cell : Option WaitThresholdStatus → Option String → Badge
unfolding queue_wait_threshold_badge
queue_wait_threshold_cell status label = queue_wait_threshold_badge (or_disabled status) label

abbrev pub is_exceeded : SplitQueue → Bool
is_exceeded queue = elim (or_disabled queue.status) [ exceeded ↦ true | _ ↦ false ]

abbrev pub or_empty : Option (List SplitQueue) → List SplitQueue
or_empty none = []
or_empty (some queues) = queues

unfoldable pub shared_pool_exceeded_count : Item → ℕ
unfolding keep
shared_pool_exceeded_count item = length (keep is_exceeded (or_empty item.split_queues))

unfoldable pub grouped : Item → Bool
grouped item = ltb 0 (length (or_empty item.split_queues))

-- The cell of a row's wait threshold.
unfoldable pub threshold_badge : (ℕ → String) → Item → Badge
unfolding grouped shared_pool_exceeded_count queue_wait_threshold_badge queue_wait_threshold_cell
threshold_badge show item =
    let exceeded_children = if grouped item then shared_pool_exceeded_count item else 0 in
    if ltb 0 exceeded_children
    then queue_wait_threshold_badge exceeded (
        some (
          if exceeded_children == length (or_empty item.split_queues)
          then "All exceeded"
          else show exceeded_children <> " exceeded"))
    else queue_wait_threshold_cell item.status none

-- `WorkloadWaitCell`: none is the dash.
unfoldable pub wait_cell : ℕ → ℕ → Option ℕ
wait_cell ready_jobs wait = if (ready_jobs == 0) && (wait == 0) then none else some wait

-- A click on a row: `target` is whether it hit an interactive element. A grouped row opens or closes, another
-- one is visited.
pub data Click : Type 0 where
  nothing toggle visit : Click

unfoldable pub on_click : Item → Bool → Click
unfolding grouped
on_click item target = if target then nothing else if grouped item then toggle else visit

keep-length : (queues : List SplitQueue) → length (keep is_exceeded queues) ≤ length queues
unfolding keep
keep-length [] = omega arith
keep-length (q ∷ qs) = elim (Bool-cases (is_exceeded q)) [
  | inl yes_q ↦ rw yes_q (omega (arith, keep-length qs))
  | inr no_q ↦ rw no_q (omega (arith, keep-length qs))
]

kept-any :
    (queues : List SplitQueue) → ltb 0 (length (keep is_exceeded queues)) ≡ any is_exceeded queues
unfolding keep any
kept-any [] = refl
kept-any (q ∷ qs) = elim (Bool-cases (is_exceeded q)) [
  | inl yes_q ↦ rw yes_q (ground arith)
  | inr no_q ↦ rw no_q (kept-any qs)
]

kept-all :
    (queues : List SplitQueue)
    → (length (keep is_exceeded queues) == length queues) ≡ all is_exceeded queues
unfolding keep all
kept-all [] = ground arith
kept-all (q ∷ qs) = elim (Bool-cases (is_exceeded q)) [
  | inl yes_q ↦ rw yes_q (ground (arith, kept-all qs))
  | inr no_q ↦ rw no_q (ground (arith, keep-length qs))
]

counted : (kept total : ℕ) → kept ≤ total → (if ltb 0 total then kept else 0) ≡ kept
counted kept total h = ground arith

-- The badge of a row, read without counting: a pool with an exceeded queue says how many are, and that all are
-- exactly if every one is; any other row shows its own status.
pub threshold_badge_lem :
    (show : ℕ → String) (item : Item)
    → let queues = or_empty item.split_queues in
      threshold_badge show item ≡ (
        if any is_exceeded queues
        then badge exceeded (
            if all is_exceeded queues
            then "All exceeded"
            else show (length (keep is_exceeded queues)) <> " exceeded")
        else queue_wait_threshold_cell item.status none)
unfolding threshold_badge
threshold_badge_lem show item =
    let queues = or_empty item.split_queues in
    rw
      (
        counted (length (keep is_exceeded queues)) (length queues) (keep-length queues),
        kept-any queues,
        kept-all queues,
      )
      refl
