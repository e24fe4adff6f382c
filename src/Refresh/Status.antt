-- ===== src/Refresh/Status.antt =====
-- The module state and the request callbacks of resources/js/lib/auto-refresh-status.ts.
-- `trackBackgroundRefresh` closes over three variables for each request: a `Tracker`.
use horizon_new_dawn.Base.{
  ℕ, zero, suc, ◌+◌, ◌-◌, Bool, true, false, not, ◌||◌, Option, none, some, List, [], ◌∷◌, ◌++◌,
  ltb, if◌then◌else◌,
}

pub data AutoRefreshStatus : Type 0 where
  idle refreshing failed : AutoRefreshStatus

pub data Outcome : Type 0 where
  success failure cancel : Outcome

pub record Store : Type 0 where
  pub active_count : ℕ
  pub last_failed : Bool
  -- What a listener reads by `getAutoRefreshStatus` when `emit` calls it, the latest first.
  pub emissions : List AutoRefreshStatus

pub record Tracker : Type 0 where
  pub began : Bool
  pub settled : Bool
  pub outcome : Option Outcome

abbrev pub initial_store : Store
initial_store = record { active_count = 0; last_failed = false; emissions = [] }

abbrev pub new_tracker : Tracker
new_tracker = record { began = false; settled = false; outcome = none }

unfoldable pub current_status : Store → AutoRefreshStatus
current_status s =
    if ltb 0 s.active_count then refreshing else if s.last_failed then failed else idle

unfoldable pub emit : Store → Store
unfolding current_status
emit s = record s { emissions = current_status s ∷ s.emissions }

-- `resetAutoRefreshStatusForTests`
unfoldable pub reset : Store → Store
unfolding emit
reset s = emit (record s { active_count = 0; last_failed = false })

unfoldable pub begin : Store → Tracker → Store × Tracker
unfolding emit
begin s t =
    if t.began
    then (s, t)
    else (emit (record s { active_count = s.active_count + 1 }), record t { began = true })

abbrev pub failed_after : Option Outcome → Bool → Bool
failed_after (some success) _ = false
failed_after (some failure) _ = true
failed_after (some cancel) before = before
failed_after none before = before

-- `Math.max(0, activeCount - 1)` is the subtraction that stops at 0.
unfoldable pub settle : Store → Tracker → Store × Tracker
unfolding emit
settle s t = if not t.began || t.settled then (s, t) else (
  emit (record s {
    active_count = s.active_count - 1;
    last_failed = failed_after t.outcome s.last_failed;
  }),
  record t { settled = true },
)

abbrev pub or_first : Option Outcome → Outcome → Option Outcome
or_first none o = some o
or_first (some o') o = some o'

-- `markFailure`
unfoldable pub mark_failure : Tracker → Tracker
mark_failure t = record t { outcome = or_first t.outcome failure }

pub data Callback : Type 0 where
  on_cancel_token on_start on_success on_error on_network_error on_http_exception : Callback
  on_cancel on_finish : Callback

unfoldable pub handle : Callback → Store → Tracker → Store × Tracker
unfolding begin settle mark_failure
handle on_cancel_token s t = begin s t
handle on_start s t = begin s t
handle on_success s t = (s, record t { outcome = some success })
handle on_error s t = (s, mark_failure t)
handle on_network_error s t = (s, mark_failure t)
handle on_http_exception s t = (s, mark_failure t)
handle on_cancel s t = settle s (record t { outcome = or_first t.outcome cancel })
handle on_finish s t = settle s t

-- What the callback returns: `own` is the result of the request's own handler, if it has one. A
-- callback without a result has none.
unfoldable pub result : Callback → Option (Option Bool) → Option Bool
result on_network_error (some own) = own
result on_network_error none = some false
result on_http_exception (some own) = own
result on_http_exception none = some false
result _ own = none

-- A callback of the request with the index; requests share the store.
unfoldable pub handle_at : ℕ → Callback → Store → List Tracker → Store × List Tracker
handle_at i c s [] = (s, [])
handle_at zero c s (t ∷ ts) = let (s', t') = handle c s t in (s', t' ∷ ts)
handle_at (suc i) c s (t ∷ ts) = let (s', ts') = handle_at i c s ts in (s', t ∷ ts')

pub data Event : Type 0 where
  track : Event
  call : ℕ → Callback → Event

unfoldable pub step : Event → Store → List Tracker → Store × List Tracker
step track s ts = (s, ts ++ new_tracker ∷ [])
step (call i c) s ts = handle_at i c s ts

unfoldable pub run : List Event → Store → List Tracker → Store × List Tracker
run [] s ts = (s, ts)
run (e ∷ es) s ts = let (s', ts') = step e s ts in run es s' ts'
