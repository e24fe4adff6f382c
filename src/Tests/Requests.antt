-- ===== src/Tests/Requests.antt =====
-- A poll that finishes before a visit (resources/js/lib/inertia-request-coordination.ts).
use horizon_new_dawn.Base.{false, refl, some, List, [], ◌∷◌, if◌then◌else◌, ◌==◌, nat_eq}
use horizon_new_dawn.Requests.Coordination.{World, Event, token, finish, before, step, run}
use horizon_new_dawn.Requests.Cancellation.{Gone, finished_not_cancelled}

abbrev polling : World
polling = record {
  registry = record { active = 5 ∷ 6 ∷ []; calls = [] };
  cancel_request = λ n. if n == 0 then some 5 else some 6;
}

abbrev visits : List Event
visits = before false false ∷ token 1 7 ∷ before false false ∷ []

finished_not_cancelled_example : Gone 5 polling (run (step polling (finish 0)) visits)
unfolding nat_eq
finished_not_cancelled_example =
    finished_not_cancelled polling 0 5 visits refl (tt, (refl, (tt, tt)))
