-- ===== src/Polling/Clock.antt =====
-- resources/js/hooks/use-scheduled-job-clock.ts and resources/js/lib/pending-job-state.ts. Times are
-- whole milliseconds: `scheduledAt`, in seconds in the source, is given times 1000.
use horizon_new_dawn.Base.{
  ℕ, ◌+◌, ◌-◌, ◌≤◌, ◌<◌, min, String, Bool, false, ◌&&◌, ◌≡◌, refl, ◌⊎◌, Option, none, some, List,
  [], ◌∷◌, arith, ltb, if◌then◌else◌, ◌==◌, string_eq, All,
}

abbrev pub maximum_timeout : ℕ
maximum_timeout = 2147483647

-- `scheduledAt > now && (next === null || scheduledAt < next)`
abbrev pub sooner : ℕ → ℕ → Option ℕ → Bool
sooner now at none = ltb now at
sooner now at (some next) = ltb now at && ltb at next

-- The loop over the jobs, with `nextScheduledAt` so far.
unfoldable pub next_scheduled_at : ℕ → List (Option ℕ) → Option ℕ → Option ℕ
next_scheduled_at now [] next = next
next_scheduled_at now (none ∷ jobs) next = next_scheduled_at now jobs next
next_scheduled_at now (some at ∷ jobs) next =
    next_scheduled_at now jobs (if sooner now at next then some at else next)

-- The delay of the timeout that re-renders, at the time when the effect runs: `Math.max(0, …)` is the
-- subtraction that stops at 0.
unfoldable pub delay : ℕ → ℕ → ℕ
delay next now = min maximum_timeout (next + 1 - now)

pub data PendingJobState : Type 0 where
  ready reserved delayed released : PendingJobState

unfoldable pub pending_job_state : String → Option ℕ → ℕ → PendingJobState
pending_job_state status scheduled_at now =
    if status == "reserved"
    then reserved
    else elim scheduled_at [ none ↦ ready | some at ↦ if ltb now at then delayed else released ]

-- The list's element is due later than `now`, or at `next` at the earliest.
abbrev Covered : ℕ → ℕ → Option ℕ → Type 0
Covered now next none = Unit
Covered now next (some at) = (at ≤ now) ⊎ (next ≤ at)

abbrev Below : Option ℕ → ℕ → Type 0
Below none next = Unit
Below (some so_far) next = next ≤ so_far

Below-step :
    (now at next : ℕ) (so_far : Option ℕ)
    → Below (if sooner now at so_far then some at else so_far) next
    → Below so_far next × ((at ≤ now) ⊎ (next ≤ at))
Below-step now at next none b = ground arith
Below-step now at next (some best) b = ground arith

next-Below :
    (now : ℕ) (jobs : List (Option ℕ)) (so_far : Option ℕ) {next : ℕ}
    → next_scheduled_at now jobs so_far ≡ some next
    → Below so_far next × All (Covered now next) jobs
unfolding next_scheduled_at
next-Below now [] none h = (tt, tt)
next-Below now [] (some so_far) h = (ground arith, tt)
next-Below now (none ∷ jobs) so_far h = let (b, c) = next-Below now jobs so_far h in (b, (tt, c))
next-Below now (some at ∷ jobs) so_far {next} h =
    let (b, c) = next-Below now jobs (if sooner now at so_far then some at else so_far) h in
    let (b', covered) = Below-step now at next so_far b in (b', (covered, c))

state_kept :
    (now t next : ℕ) (status : String) (job : Option ℕ)
    → now ≤ t
    → t < next
    → Covered now next job
    → pending_job_state status job t ≡ pending_job_state status job now
unfolding pending_job_state
state_kept now t next status none le lt c = refl
state_kept now t next status (some at) le lt c = ground arith

All-kept :
    (now t next : ℕ) (status : String) (jobs : List (Option ℕ))
    → now ≤ t
    → t < next
    → All (Covered now next) jobs
    → All (λ job. pending_job_state status job t ≡ pending_job_state status job now) jobs
All-kept now t next status [] le lt c = tt
All-kept now t next status (job ∷ jobs) le lt c =
    (state_kept now t next status job le lt c.0, All-kept now t next status jobs le lt c.1)

-- Until the scheduled time that the clock picks, no listed job changes its state, whatever its
-- status: a render before it would show nothing new.
pub states_kept_until_next :
    (now t : ℕ) (status : String) (jobs : List (Option ℕ)) {next : ℕ}
    → next_scheduled_at now jobs none ≡ some next
    → now ≤ t
    → t < next
    → All (λ job. pending_job_state status job t ≡ pending_job_state status job now) jobs
states_kept_until_next now t status jobs {next} h le lt =
    All-kept now t next status jobs le lt (next-Below now jobs none h).1

-- The timeout is never late by the cap alone: where the time is near enough, it re-renders after it
-- has come, so that a job that is due is shown as released.
pub released_after_timeout :
    (now next : ℕ) (status : String)
    → now ≤ next
    → next + 1 - now ≤ maximum_timeout
    → (status == "reserved") ≡ false
    → (pending_job_state status (some next) (now + delay next now) ≡ released)
      × (now + delay next now ≡ next + 1)
unfolding pending_job_state delay
released_after_timeout now next status le near waiting = ground arith
