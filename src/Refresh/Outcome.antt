-- ===== src/Refresh/Outcome.antt =====
-- What one request leaves behind (resources/js/lib/auto-refresh-status.ts).
use horizon_new_dawn.Base.{
  ◌+◌, Bool, true, false, ◌≡◌, refl, ap, ◌∙◌, Option, none, some, List, [], ◌∷◌, ◌++◌, arith,
  if◌then◌else◌, any, all,
}
use horizon_new_dawn.Refresh.Status.{
  Store, Tracker, Outcome, success, failure, cancel, Callback, on_start, on_success, on_error,
  on_network_error, on_http_exception, on_cancel, on_finish, new_tracker, handle, failed_after,
}

-- The callbacks of one request, in order.
unfoldable pub run_request : List Callback → Store → Tracker → Store × Tracker
run_request [] s t = (s, t)
run_request (c ∷ cs) s t = let (s', t') = handle c s t in run_request cs s' t'

abbrev pub is_success : Callback → Bool
is_success on_success = true
is_success _ = false

abbrev pub marks : Callback → Option Outcome
marks on_error = some failure
marks on_network_error = some failure
marks on_http_exception = some failure
marks on_cancel = some cancel
marks _ = none

abbrev pub either : Option Outcome → Option Outcome → Option Outcome
either none o = o
either (some o') o = some o'

-- The first failure or cancellation.
unfoldable pub first_mark : List Callback → Option Outcome
first_mark [] = none
first_mark (c ∷ cs) = either (marks c) (first_mark cs)

-- A success, wherever it comes, counts; otherwise the first failure or cancellation does.
unfoldable pub verdict : List Callback → Option Outcome
unfolding first_mark any
verdict cs = if any is_success cs then some success else first_mark cs

-- A callback that does not end the request.
abbrev pub continues : Callback → Bool
continues on_cancel = false
continues on_finish = false
continues _ = true

-- What is known of a request under way, against the store at its start.
record Under (s : Store) (o : Option Outcome) (r : Store × Tracker) : Type 0 where
  began : r.1.began ≡ true
  open_still : r.1.settled ≡ false
  outcome : r.1.outcome ≡ o
  counted : r.0.active_count ≡ s.active_count + 1
  failed : r.0.last_failed ≡ s.last_failed

abbrev outcome_step : Callback → Option Outcome → Option Outcome
outcome_step on_success o = some success
outcome_step c o = either o (marks c)

handle-Under :
    (c : Callback) (s : Store) (o : Option Outcome) (s' : Store) (t : Tracker)
    → continues c ≡ true
    → Under s o (s', t)
    → Under s (outcome_step c o) (handle c s' t)
unfolding handle
handle-Under on_success s o s' t going u = ground arith
handle-Under _ s o s' t going u = ground arith

outcomes : Option Outcome → List Callback → Option Outcome
outcomes o [] = o
outcomes o (c ∷ cs) = outcomes (outcome_step c o) cs

outcomes_lem :
    (o : Option Outcome) (cs : List Callback)
    → outcomes o cs ≡ (if any is_success cs then some success else either o (first_mark cs))
unfolding outcomes any first_mark
outcomes_lem none [] = refl
outcomes_lem (some o) [] = refl
outcomes_lem o (on_success ∷ cs) = ground (arith, outcomes_lem (some success) cs)
outcomes_lem o (c ∷ cs) = ground (arith, outcomes_lem (outcome_step c o) cs)

outcomes_of_none : (cs : List Callback) → outcomes none cs ≡ verdict cs
unfolding verdict
outcomes_of_none cs = outcomes_lem none cs

run_request-Under :
    (cs : List Callback) (s : Store) (o : Option Outcome) (r : Store × Tracker)
    → all continues cs ≡ true
    → Under s o r
    → Under s (outcomes o cs) (run_request cs r.0 r.1)
unfolding run_request outcomes all
run_request-Under [] s o r going u = u
run_request-Under (c ∷ cs) s o (s', t) going u =
    run_request-Under cs s (outcome_step c o) (handle c s' t) (ground arith)
      (handle-Under c s o s' t (ground arith) u)

run_request-append :
    (cs rest : List Callback) (s : Store) (t : Tracker)
    → run_request (cs ++ rest) s t ≡ run_request rest (run_request cs s t).0 (run_request cs s t).1
unfolding run_request
run_request-append [] rest s t = refl
run_request-append (c ∷ cs) rest s t = run_request-append cs rest (handle c s t).0 (handle c s t).1

abbrev IsOver : Tracker → Type 0
IsOver t = (t.began ≡ true) × (t.settled ≡ true)

handle-IsOver :
    (c : Callback) (s : Store) (t : Tracker)
    → IsOver t
    → ((handle c s t).0 ≡ s) × IsOver (handle c s t).1
unfolding handle
handle-IsOver on_success s t over = ground arith
handle-IsOver _ s t over = ground arith

-- Once settled, a request changes the store no more.
pub run_request_over :
    (cs : List Callback) (s : Store) (t : Tracker)
    → (t.began ≡ true) × (t.settled ≡ true)
    → (run_request cs s t).0 ≡ s
unfolding run_request
run_request_over [] s t over = refl
run_request_over (c ∷ cs) s t over =
    let (kept, over') = handle-IsOver c s t over in
    run_request_over cs (handle c s t).0 (handle c s t).1 over' ∙ kept

finish_lem :
    (s : Store) (o : Option Outcome) (s' : Store) (t : Tracker)
    → Under s o (s', t)
    → let r = handle on_finish s' t in
      (r.0.active_count ≡ s.active_count)
      × (r.0.last_failed ≡ failed_after o s.last_failed)
      × IsOver r.1
unfolding handle
finish_lem s o s' t u = ground arith

start-Under : (s : Store) → Under s none (handle on_start s new_tracker)
unfolding handle
start-Under s = ground arith

run_cons :
    (c : Callback) (cs : List Callback) (s : Store) (t : Tracker)
    → run_request (c ∷ cs) s t ≡ run_request cs (handle c s t).0 (handle c s t).1
unfolding run_request
run_cons c cs s t = refl

-- A request that starts, runs through callbacks `cs`, none of which ends it, and finishes takes
-- itself off the counter, and reports failure or success by its verdict, or leaves the report as
-- it was if there is no verdict; callbacks that come after the finish change nothing of the
-- counter and of the report.
pub request_lifetime :
    (cs rest : List Callback) (s : Store)
    → all continues cs ≡ true
    → let r = run_request (on_start ∷ (cs ++ on_finish ∷ rest)) s new_tracker in
      (r.0.active_count ≡ s.active_count)
      × (r.0.last_failed ≡ failed_after (verdict cs) s.last_failed)
request_lifetime cs rest s going =
    let started = handle on_start s new_tracker in
    let mid = run_request cs started.0 started.1 in
    let done = handle on_finish mid.0 mid.1 in
    let under = run_request-Under cs s none started going (start-Under s) in
    let (count, failed, over) = finish_lem s (outcomes none cs) mid.0 mid.1 under in
    let quiet = run_request_over rest done.0 done.1 over in
    let whole =
      run_cons on_start (cs ++ on_finish ∷ rest) s new_tracker
      ∙ run_request-append cs (on_finish ∷ rest) started.0 started.1
      ∙ run_cons on_finish rest mid.0 mid.1 in
    rw (whole, quiet) (count, failed ∙ ap (λ o. failed_after o s.last_failed) (outcomes_of_none cs))
