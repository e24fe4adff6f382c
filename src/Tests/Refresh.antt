-- ===== src/Tests/Refresh.antt =====
-- Requests that overlap (resources/js/lib/auto-refresh-status.ts).
use horizon_new_dawn.Base.{true, false, ◌≡◌, refl, List, [], ◌∷◌, ◌++◌, all, nat_eq}
use horizon_new_dawn.Refresh.Status.{
  Callback, on_start, on_network_error, on_finish, on_cancel, initial_store, new_tracker,
  failed_after, current_status, Event, track, call, run,
}
use horizon_new_dawn.Refresh.Count.{Counts, run-Counts}
use horizon_new_dawn.Refresh.Refinement.{promised_status, promised_run, promise_of, run_refines}
use horizon_new_dawn.Refresh.Listeners.{
  Shared, Action, request, subscribe, unsubscribe, UpToDate, act_all, act_all-UpToDate,
}
use horizon_new_dawn.Refresh.Outcome.{continues, verdict, run_request, request_lifetime}

abbrev overlapping : List Event
overlapping =
    track ∷ track ∷ call 0 on_start ∷ call 1 on_start ∷ call 0 on_cancel ∷ call 0 on_finish ∷ []

nothing-Counts : Counts initial_store []
unfolding current_status
nothing-Counts = (refl, refl, tt)

run-Counts_example :
    Counts (run overlapping initial_store []).0 (run overlapping initial_store []).1
run-Counts_example = run-Counts overlapping initial_store [] nothing-Counts

run_refines_example :
    current_status (run overlapping initial_store []).0
    ≡ promised_status (promised_run overlapping (promise_of initial_store []))
run_refines_example = run_refines overlapping initial_store [] nothing-Counts

abbrev nobody : Shared
nobody = record { store = initial_store; trackers = []; listeners = [] }

abbrev coming_and_going : List Action
coming_and_going =
    subscribe 1
    ∷ request track
    ∷ request (call 0 on_start)
    ∷ subscribe 2
    ∷ unsubscribe 1
    ∷ request (call 0 on_finish)
    ∷ []

act_all-UpToDate_example :
    UpToDate
      (current_status (act_all coming_and_going nobody).store)
      (act_all coming_and_going nobody).listeners
act_all-UpToDate_example = act_all-UpToDate coming_and_going nobody tt

abbrev network_failure : List Callback
network_failure = on_network_error ∷ []

network_failure-continues : all continues network_failure ≡ true
unfolding all
network_failure-continues = refl

request_lifetime_example :
    let r =
      run_request
        (on_start ∷ (network_failure ++ on_finish ∷ on_cancel ∷ []))
        initial_store
        new_tracker in
    (r.0.active_count ≡ 0) × (r.0.last_failed ≡ failed_after (verdict network_failure) false)
request_lifetime_example =
    request_lifetime network_failure (on_cancel ∷ []) initial_store network_failure-continues
