-- ===== src/Queues/Items.antt =====
-- resources/js/components/queues/queue-actions-menu.tsx: which items the menu shows, and when its
-- trigger is available.
use horizon_new_dawn.Base.{
  ℕ, Bool, true, false, not, ◌&&◌, ◌||◌, ◌≡◌, refl, Option, none, some, List, [], ◌∷◌, ◌++◌, arith,
  ltb, if◌then◌else◌, any, ap₂,
}
use horizon_new_dawn.Queues.Menu.{
  QueueActionTarget, QueueActionScope, all_jobs, pending_jobs, failed_jobs, FailedJobs, undefined,
  null, number, Props,
}

pub data Action : Type 0 where
  resume_now pause retry_failed clear : Action

pub record Item : Type 0 where
  pub action : Action
  pub disabled : Bool

-- `target.total ?? pendingJobs ?? 0`
abbrev pub total_or : Option ℕ → Option ℕ → ℕ
total_or (some total) pending = total
total_or none (some pending) = pending
total_or none none = 0

abbrev pub can_clear : Props → QueueActionTarget → Bool
can_clear props target = ltb 0 (total_or target.total props.pending)

-- The pass `canRetryFailed`: null where `failedJobs` is undefined.
abbrev pub can_retry_failed : FailedJobs → Option Bool
can_retry_failed undefined = none
can_retry_failed null = some false
can_retry_failed (number n) = some (ltb 0 n)

abbrev pub show_pending_actions : QueueActionScope → Bool
show_pending_actions all_jobs = true
show_pending_actions pending_jobs = true
show_pending_actions failed_jobs = false

abbrev pub show_failed_actions : QueueActionScope → Bool
show_failed_actions all_jobs = true
show_failed_actions pending_jobs = false
show_failed_actions failed_jobs = true

abbrev pub retry_items : Bool → Option Bool → List Item
retry_items false can = []
retry_items true none = []
retry_items true (some can) = record { action = retry_failed; disabled = not can } ∷ []

-- `QueueActionItems`, in the order of the menu; of the target it reads `paused`.
unfoldable pub queue_action_items : Bool → Bool → Option Bool → QueueActionScope → Bool → List Item
queue_action_items can_clear can_pause can_retry_failed scope paused =
    let pending = show_pending_actions scope in
    (if pending && (can_pause && paused)
      then record { action = resume_now; disabled = false } ∷ []
      else [])
    ++ ((if pending && can_pause then record { action = pause; disabled = false } ∷ [] else [])
        ++ (retry_items (show_failed_actions scope) can_retry_failed
            ++ (if pending then record { action = clear; disabled = not can_clear } ∷ [] else [])))

-- The items of a target's menu.
unfoldable pub target_items : Props → QueueActionTarget → List Item
unfolding queue_action_items
target_items props target =
    queue_action_items (can_clear props target) props.queue_pausing (can_retry_failed props.failed)
      props.scope target.paused

-- `(failedJobs ?? 0) > 0` of a `failedJobs` that is not undefined.
abbrev pub some_failed : FailedJobs → Bool
some_failed undefined = false
some_failed null = false
some_failed (number n) = ltb 0 n

abbrev pub not_failed_scope : QueueActionScope → Bool
not_failed_scope failed_jobs = false
not_failed_scope scope = true

abbrev pub not_pending_scope : QueueActionScope → Bool
not_pending_scope pending_jobs = false
not_pending_scope scope = true

-- The test at one target.
unfoldable pub has_actions : Bool → Bool → FailedJobs → QueueActionScope → Bool
has_actions can_clear queue_pausing failed scope =
    not_failed_scope scope && (queue_pausing || can_clear)
    || not_pending_scope scope && some_failed failed

unfoldable pub has_available_actions : Props → List QueueActionTarget → Bool
unfolding has_actions
has_available_actions props targets =
    any
      (λ target. has_actions (can_clear props target) props.queue_pausing props.failed props.scope)
      targets

abbrev pub enabled : Item → Bool
enabled item = not item.disabled

has_actions_lem :
    (can_clear queue_pausing : Bool) (failed : FailedJobs) (scope : QueueActionScope)
    (paused : Bool)
    → has_actions can_clear queue_pausing failed scope
      ≡ any enabled
          (queue_action_items can_clear queue_pausing (can_retry_failed failed) scope paused)
unfolding has_actions queue_action_items any
has_actions_lem can_clear queue_pausing failed scope paused = ground arith

any-cong :
    {A : Type 0} {p q : A → Bool} → ((a : A) → p a ≡ q a) → (xs : List A) → any p xs ≡ any q xs
unfolding any
any-cong h [] = refl
any-cong h (x ∷ xs) = ap₂ ◌||◌ (h x) (any-cong h xs)

-- The trigger of the menu is available exactly when an item of some target's menu is enabled.
pub has_available_actions_lem :
    (props : Props) (targets : List QueueActionTarget)
    → has_available_actions props targets
      ≡ any (λ target. any enabled (target_items props target)) targets
unfolding has_available_actions target_items
has_available_actions_lem props targets =
    any-cong
      (λ target.
        has_actions_lem (can_clear props target) props.queue_pausing props.failed props.scope
          target.paused)
      targets
