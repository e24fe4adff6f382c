-- ===== src/Refresh/Refinement.antt =====
-- What resources/js/lib/auto-refresh-status.ts promises, without counter and flags: each request is waiting,
-- under way or over, and the status follows from the requests under way and the last verdict.
use horizon_new_dawn.Base.{
  ℕ, zero, suc, Bool, true, false, ◌≡◌, refl, ap, ap₂, sym, ◌∙◌, Option, none, some, List, [], ◌∷◌,
  ◌++◌, map, arith, All, any, ltb, if◌then◌else◌,
}
use horizon_new_dawn.Refresh.Status.{
  AutoRefreshStatus, idle, refreshing, failed, Outcome, success, failure, cancel, Store, Tracker,
  Callback, Event, track, call, current_status, failed_after, or_first, handle, handle_at, step,
  run, new_tracker, on_success, on_cancel, on_finish, on_start, on_cancel_token,
}
use horizon_new_dawn.Refresh.Count.{live, live_count, IsOrdered, Counts, run-Counts, step-Counts}

-- A request with the outcome that it has reported, before and after its start.
pub data Phase : Type 0 where
  waiting under_way over : Option Outcome → Phase

-- The requests, and whether the last verdict was a failure.
pub record Promise : Type 0 where
  pub last_failed : Bool
  pub phases : List Phase

abbrev pub is_under_way : Phase → Bool
is_under_way (under_way o) = true
is_under_way phase = false

unfoldable pub promised_status : Promise → AutoRefreshStatus
unfolding any
promised_status q =
    if any is_under_way q.phases then refreshing else if q.last_failed then failed else idle

abbrev pub started : Phase → Phase
started (waiting o) = under_way o
started phase = phase

abbrev pub reported : (Option Outcome → Option Outcome) → Phase → Phase
reported f (waiting o) = waiting (f o)
reported f (under_way o) = under_way (f o)
reported f (over o) = over (f o)

-- A request under way ends with its verdict.
abbrev pub ended : Bool → Phase → Bool × Phase
ended verdict (under_way o) = (failed_after o verdict, over o)
ended verdict phase = (verdict, phase)

unfoldable pub promised_handle : Callback → Bool → Phase → Bool × Phase
promised_handle on_cancel_token verdict phase = (verdict, started phase)
promised_handle on_start verdict phase = (verdict, started phase)
promised_handle on_success verdict phase = (verdict, reported (λ o. some success) phase)
promised_handle on_cancel verdict phase = ended verdict (reported (λ o. or_first o cancel) phase)
promised_handle on_finish verdict phase = ended verdict phase
promised_handle failing verdict phase = (verdict, reported (λ o. or_first o failure) phase)

unfoldable pub promised_handle_at : ℕ → Callback → Bool → List Phase → Bool × List Phase
unfolding promised_handle
promised_handle_at i c verdict [] = (verdict, [])
promised_handle_at zero c verdict (phase ∷ phases) =
    let (verdict', phase') = promised_handle c verdict phase in (verdict', phase' ∷ phases)
promised_handle_at (suc i) c verdict (phase ∷ phases) =
    let (verdict', phases') = promised_handle_at i c verdict phases in (verdict', phase ∷ phases')

unfoldable pub promised_step : Event → Promise → Promise
promised_step track q = record q { phases = q.phases ++ (waiting none ∷ []) }
promised_step (call i c) q =
    let (verdict, phases) = promised_handle_at i c q.last_failed q.phases in
    record { last_failed = verdict; phases = phases }

unfoldable pub promised_run : List Event → Promise → Promise
promised_run [] q = q
promised_run (e ∷ es) q = promised_run es (promised_step e q)

unfoldable pub phase_of : Tracker → Phase
phase_of t =
    if t.settled then over t.outcome else if t.began then under_way t.outcome else waiting t.outcome

unfoldable pub promise_of : Store → List Tracker → Promise
unfolding phase_of
promise_of s ts = record { last_failed = s.last_failed; phases = map phase_of ts }

abbrev Agrees : Callback → Store → Tracker → Type 0
Agrees c s t =
    ((promised_handle c s.last_failed (phase_of t)).0 ≡ (handle c s t).0.last_failed)
    × ((promised_handle c s.last_failed (phase_of t)).1 ≡ phase_of (handle c s t).1)

handle-Agrees : (c : Callback) (s : Store) (t : Tracker) → IsOrdered t → Agrees c s t
unfolding handle promised_handle phase_of
handle-Agrees on_success s t o = (ground arith, ground arith)
handle-Agrees _ s t o = (ground arith, ground arith)

handle_at-Agrees :
    (i : ℕ) (c : Callback) (s : Store) (ts : List Tracker)
    → All IsOrdered ts
    → promised_handle_at i c s.last_failed (map phase_of ts)
      ≡ ((handle_at i c s ts).0.last_failed, map phase_of (handle_at i c s ts).1)
unfolding handle_at promised_handle_at
handle_at-Agrees i c s [] o = refl
handle_at-Agrees zero c s (t ∷ ts) o =
    let (verdict, phase) = handle-Agrees c s t o.0 in
    ap₂ (λ v ph. (v, ph ∷ map phase_of ts)) verdict phase
handle_at-Agrees (suc i) c s (t ∷ ts) o =
    ap (λ (r : Bool × List Phase). (r.0, phase_of t ∷ r.1)) (handle_at-Agrees i c s ts o.1)

map-append : (ts us : List Tracker) → map phase_of (ts ++ us) ≡ map phase_of ts ++ map phase_of us
map-append [] us = refl
map-append (t ∷ ts) us = ap (λ rest. phase_of t ∷ rest) (map-append ts us)

step-Agrees :
    (e : Event) (s : Store) (ts : List Tracker)
    → Counts s ts
    → promise_of (step e s ts).0 (step e s ts).1 ≡ promised_step e (promise_of s ts)
unfolding step promised_step promise_of phase_of
step-Agrees track s ts h =
    ap (λ ps. record { last_failed = s.last_failed; phases = ps })
      (map-append ts (new_tracker ∷ []))
step-Agrees (call i c) s ts (count, told, ordered) =
    ap (λ (r : Bool × List Phase). record { last_failed = r.0; phases = r.1 })
      (sym (handle_at-Agrees i c s ts ordered))

run-Agrees :
    (es : List Event) (s : Store) (ts : List Tracker)
    → Counts s ts
    → promise_of (run es s ts).0 (run es s ts).1 ≡ promised_run es (promise_of s ts)
unfolding run promised_run
run-Agrees [] s ts h = refl
run-Agrees (e ∷ es) s ts h =
    run-Agrees es (step e s ts).0 (step e s ts).1 (step-Counts e s ts h)
    ∙ ap (promised_run es) (step-Agrees e s ts h)

live-under_way : (t : Tracker) → IsOrdered t → ltb 0 (live t) ≡ is_under_way (phase_of t)
unfolding phase_of
live-under_way t o = ground arith

live_count-any :
    (ts : List Tracker)
    → All IsOrdered ts
    → ltb 0 (live_count ts) ≡ any is_under_way (map phase_of ts)
unfolding any
live_count-any [] o = refl
live_count-any (t ∷ ts) o = rw (← live-under_way t o.0, ← live_count-any ts o.1) (ground arith)

current_status-promised :
    (s : Store) (ts : List Tracker)
    → Counts s ts
    → current_status s ≡ promised_status (promise_of s ts)
unfolding current_status promised_status promise_of
current_status-promised s ts (count, told, ordered) = rw (count, live_count-any ts ordered) refl

-- From a store that counts its requests, the counter and the flags keep the promise: after any interleaving
-- of callbacks the status is the one that the phases of the requests and the last verdict give.
pub run_refines :
    (es : List Event) (s : Store) (ts : List Tracker)
    → Counts s ts
    → current_status (run es s ts).0 ≡ promised_status (promised_run es (promise_of s ts))
run_refines es s ts h =
    current_status-promised (run es s ts).0 (run es s ts).1 (run-Counts es s ts h)
    ∙ ap promised_status (run-Agrees es s ts h)
