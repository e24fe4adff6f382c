-- ===== src/Requests/Cancellation.antt =====
-- A foreground visit cancels each registered poll once; a finished poll is never cancelled
-- (resources/js/lib/inertia-request-coordination.ts).
use horizon_new_dawn.Base.{
  ℕ, Bool, false, ◌||◌, ◌≡◌, refl, ◌∙◌, Option, none, some, List, [], ◌∷◌, ◌++◌, arith,
  if◌then◌else◌, ◌==◌, nat_eq, contains, remove, Distinct, contains-remove, contains-append, All,
}
use horizon_new_dawn.Requests.Coordination.{
  Registry, World, Event, token, finish, before, add, on_finish, on_before, step, run,
}

append-Distinct :
    (xs : List ℕ) (a : ℕ) → Distinct xs → contains xs a ≡ false → Distinct (xs ++ a ∷ [])
unfolding contains
append-Distinct [] a d h = (refl, tt)
append-Distinct (x ∷ xs) a d h =
    (ground (arith, contains-append xs (a ∷ []) x), append-Distinct xs a d.1 (ground arith))

remove-Distinct : (a : ℕ) (xs : List ℕ) → Distinct xs → Distinct (remove a xs)
unfolding remove
remove-Distinct a [] d = tt
remove-Distinct a (x ∷ xs) (fresh, d) =
    ground (arith, remove-Distinct a xs d, contains-remove a x xs)

add-Distinct : (a : ℕ) (xs : List ℕ) → Distinct xs → Distinct (add a xs)
unfolding add
add-Distinct a xs d = ground (arith, append-Distinct xs a d)

on_finish-Distinct :
    (r : Registry) (o : Option ℕ) → Distinct r.active → Distinct (on_finish r o).0.active
unfolding on_finish
on_finish-Distinct r none d = d
on_finish-Distinct r (some c) d = remove-Distinct c r.active d

step-Distinct :
    (w : World) (e : Event) → Distinct w.registry.active → Distinct (step w e).registry.active
unfolding step
step-Distinct w (token request cancel) d = add-Distinct cancel w.registry.active d
step-Distinct w (finish request) d = on_finish-Distinct w.registry (w.cancel_request request) d
step-Distinct w (before prefetch is_async) d = ground arith

-- The set never holds a request twice, so a foreground visit calls each cancel function once.
pub run-Distinct :
    (es : List Event) (w : World) → Distinct w.registry.active → Distinct (run w es).registry.active
unfolding run
run-Distinct [] w d = d
run-Distinct (e ∷ es) w d = run-Distinct es (step w e) (step-Distinct w e d)

-- The events do not hand out the cancel function again.
abbrev pub NoToken : ℕ → Event → Type 0
NoToken c (token request cancel) = (cancel == c) ≡ false
NoToken c (finish request) = Unit
NoToken c (before prefetch is_async) = Unit

abbrev pub Gone : ℕ → World → World → Type 0
Gone c w w' =
    (contains w'.registry.active c ≡ false)
    × (contains w'.registry.calls c ≡ contains w.registry.calls c)

on_finish-Gone :
    (c : ℕ) (r : Registry) (o : Option ℕ)
    → contains r.active c ≡ false
    → (contains (on_finish r o).0.active c ≡ false)
      × (contains (on_finish r o).0.calls c ≡ contains r.calls c)
unfolding on_finish
on_finish-Gone c r none h = (h, refl)
on_finish-Gone c r (some d) h = ground (arith, contains-remove d c r.active)

step-Gone :
    (c : ℕ) (w : World) (e : Event)
    → NoToken c e
    → contains w.registry.active c ≡ false
    → Gone c w (step w e)
unfolding step contains add
step-Gone c w (token request cancel) no_token h =
    ground (arith, contains-append w.registry.active (cancel ∷ []) c)
step-Gone c w (finish request) no_token h = on_finish-Gone c w.registry (w.cancel_request request) h
step-Gone c w (before prefetch is_async) no_token h =
    ground (arith, contains-append w.registry.calls w.registry.active c)

run-Gone :
    (c : ℕ) (es : List Event) (w : World)
    → All (NoToken c) es
    → contains w.registry.active c ≡ false
    → Gone c w (run w es)
unfolding run
run-Gone c [] w no_token h = (h, refl)
run-Gone c (e ∷ es) w no_token h =
    let (gone, calls) = step-Gone c w e no_token.0 h in
    let (gone', calls') = run-Gone c es (step w e) no_token.1 gone in (gone', calls' ∙ calls)

-- After a poll that holds a cancel function has finished, that function is in no later set and is
-- called by no later visit, whatever else happens, as long as no request registers it again.
pub finished_not_cancelled :
    (w : World) (request c : ℕ) (es : List Event)
    → w.cancel_request request ≡ some c
    → All (NoToken c) es
    → Gone c w (run (step w (finish request)) es)
unfolding step on_finish
finished_not_cancelled w request c es held no_token =
    let w' = step w (finish request) in
    let gone : contains w'.registry.active c ≡ false =
      ground (arith, contains-remove c c w.registry.active) in
    let calls : contains w'.registry.calls c ≡ contains w.registry.calls c = ground arith in
    let (gone', calls') = run-Gone c es w' no_token gone in (gone', calls' ∙ calls)

-- A foreground visit calls exactly the registered cancel functions, in their order, and forgets
-- them; a prefetch and an asynchronous visit leave the registry alone.
pub on_before_lem :
    (r : Registry) (prefetch is_async : Bool)
    → ((on_before r prefetch is_async).active ≡ (if prefetch || is_async then r.active else []))
      × ((on_before r prefetch is_async).calls
          ≡ (if prefetch || is_async then r.calls else r.calls ++ r.active))
unfolding on_before
on_before_lem r prefetch is_async = ground arith
