-- ===== src/Batches/FailedJobs.antt =====
-- `BatchFailedJobsActions` of resources/js/components/batches/batch-actions.tsx. Its retry has no dialog.
use horizon_new_dawn.Base.{
  Bool, true, false, not, ◌&&◌, ◌≡◌, refl, List, [], ◌∷◌, ◌++◌, if◌then◌else◌, All,
}

pub record FailedActions : Type 0 where
  pub dialog_open : Bool
  pub working : Bool

pub data FailedRequest : Type 0 where
  retry_failed clear_failed : FailedRequest

pub data FailedEvent : Type 0 where
  select_retry select_clear close confirm_clear started clear_succeeded finished : FailedEvent

-- With `disabled` the menu's trigger does not open. (Whether the menu is open is not part of the state: an
-- item may be selected whenever the menu can be opened.)
unfoldable pub update_failed : Bool → FailedEvent → FailedActions → FailedActions
update_failed disabled select_retry a = a
update_failed disabled select_clear a = if disabled then a else record a { dialog_open = true }
update_failed disabled close a = record a { dialog_open = false }
update_failed disabled confirm_clear a = a
update_failed disabled started a = record a { working = true }
update_failed disabled clear_succeeded a = record a { dialog_open = false }
update_failed disabled finished a = record a { working = false }

unfoldable pub failed_requests : Bool → FailedEvent → FailedActions → List FailedRequest
failed_requests disabled select_retry a = if disabled then [] else retry_failed ∷ []
failed_requests disabled confirm_clear a =
    if a.dialog_open && not a.working then clear_failed ∷ [] else []
failed_requests disabled event a = []

-- Each event comes with the property `disabled` of its render, which may change as the page polls.
unfoldable pub run_failed : List (Bool × FailedEvent) → FailedActions → List FailedRequest
unfolding update_failed failed_requests
run_failed [] a = []
run_failed ((disabled, e) ∷ es) a =
    failed_requests disabled e a ++ run_failed es (update_failed disabled e a)

closed :
    (e : FailedEvent) (a : FailedActions)
    → a.dialog_open ≡ false
    → (update_failed true e a).dialog_open ≡ false
unfolding update_failed
closed select_retry a h = h
closed select_clear a h = h
closed close a h = refl
closed confirm_clear a h = h
closed started a h = h
closed clear_succeeded a h = refl
closed finished a h = h

silent :
    (e : FailedEvent) (a : FailedActions) → a.dialog_open ≡ false → failed_requests true e a ≡ []
unfolding failed_requests
silent select_retry a h = refl
silent select_clear a h = refl
silent close a h = refl
silent confirm_clear a h = rw h refl
silent started a h = refl
silent clear_succeeded a h = refl
silent finished a h = refl

-- While the actions are disabled, nothing is sent if the dialog is closed at first.
pub run_failed-disabled :
    (es : List (Bool × FailedEvent)) (a : FailedActions)
    → All (λ (x : Bool × FailedEvent). x.0 ≡ true) es
    → a.dialog_open ≡ false
    → run_failed es a ≡ []
unfolding run_failed
run_failed-disabled [] a off h = refl
run_failed-disabled ((disabled, e) ∷ es) a (off, rest) h =
    rw off (rw (silent e a h) (run_failed-disabled es (update_failed true e a) rest (closed e a h)))
