-- ===== src/Transitions/Expiry.antt =====
-- The expiry of pending transitions: `nextExpiry` and `withoutExpiredTransitions` of
-- resources/js/hooks/use-process-transitions.ts.
use horizon_new_dawn.Base.{
  ℕ, ◌≤◌, ◌<◌, min, String, Bool, ◌≡◌, ◌↔◌, refl, some, List, [], ◌∷◌, ◌++◌, map, arith, string_eq,
  nat_eq, length, keep, All,
}
use horizon_new_dawn.Base.Dict.{
  Dict, lookup, only, keep_values, values, lookup-keep_values, keep_values-NodupKeys,
}
use horizon_new_dawn.Transitions.Model.{
  PendingTransition, PendingProcessTransitions, same, apply, alive, least, min_of, next_expiry,
  without_expired_transitions,
}
use horizon_new_dawn.Transitions.Reconcile.{IsValid}

least-le : (m : ℕ) (ns : List ℕ) → least m ns ≤ m
unfolding least
least-le m [] = omega arith
least-le m (n ∷ ns) = omega (arith, least-le (min m n) ns)

least_below : (m : ℕ) (ns : List ℕ) → All (λ n. least m ns ≤ n) ns
unfolding least
least_below m [] = tt
least_below m (n ∷ ns) = (omega (arith, least-le (min m n) ns), least_below (min m n) ns)

length-keep-le :
    (p : PendingTransition → Bool) (d : Dict String PendingTransition)
    → length (keep_values p d) ≤ length d
unfolding keep
length-keep-le p [] = omega arith
length-keep-le p ((k, t) ∷ d) = ground (arith, length-keep-le p d)

keep_of_length :
    (p : PendingTransition → Bool) (d : Dict String PendingTransition)
    → length (keep_values p d) ≡ length d
    → keep_values p d ≡ d
unfolding keep
keep_of_length p [] h = refl
keep_of_length p ((k, t) ∷ d) h = ground (arith, keep_of_length p d, length-keep-le p d)

-- Both maps of the result are the argument's, less what has expired; also where the argument
-- itself is returned.
apply-without_expired :
    (t : PendingProcessTransitions) (now : ℕ)
    → let t' = apply (without_expired_transitions t now) t in
      (t'.instances ≡ keep_values (alive now) t.instances)
      × (t'.supervisors ≡ keep_values (alive now) t.supervisors)
unfolding without_expired_transitions
apply-without_expired t now =
    ground (arith, keep_of_length (alive now) t.instances, keep_of_length (alive now) t.supervisors)

-- Of valid transitions, expiry drops exactly those whose time has come, and keeps the rest at
-- their keys.
pub lookup-without_expired :
    (t : PendingProcessTransitions) (now : ℕ) (key : String)
    → IsValid t
    → let t' = apply (without_expired_transitions t now) t in
      (lookup key t'.instances ≡ only (alive now) (lookup key t.instances))
      × (lookup key t'.supervisors ≡ only (alive now) (lookup key t.supervisors))
lookup-without_expired t now key v =
    let (instances, supervisors) = apply-without_expired t now in
    (
      rw instances (lookup-keep_values (alive now) key t.instances v.instances),
      rw supervisors (lookup-keep_values (alive now) key t.supervisors v.supervisors),
    )

pub without_expired-IsValid :
    (t : PendingProcessTransitions) (now : ℕ)
    → IsValid t
    → IsValid (apply (without_expired_transitions t now) t)
without_expired-IsValid t now v =
    let (instances, supervisors) = apply-without_expired t now in
    record {
      instances = rw instances (keep_values-NodupKeys (alive now) t.instances v.instances);
      supervisors = rw supervisors (keep_values-NodupKeys (alive now) t.supervisors v.supervisors);
    }

abbrev pub After : ℕ → Dict String PendingTransition → Type 0
After now = All (λ (entry : String × PendingTransition). now < entry.1.expires_at)

abbrev times : PendingProcessTransitions → List ℕ
times t = map (λ (p : PendingTransition). p.expires_at) (values t.instances ++ values t.supervisors)

least_above : (now m : ℕ) (ns : List ℕ) → now < m → All (λ n. now < n) ns → now < least m ns
unfolding least
least_above now m [] h hs = h
least_above now m (n ∷ ns) h hs = least_above now (min m n) ns (omega arith) hs.1

min_of_above : (now e : ℕ) (ns : List ℕ) → min_of ns ≡ some e → All (λ n. now < n) ns → now < e
unfolding min_of
min_of_above now e [] h hs = cc
min_of_above now e (n ∷ ns) h hs = ground (arith, least_above now n ns hs.0 hs.1)

weaken : (now e : ℕ) (ns : List ℕ) → now < e → All (λ n. e ≤ n) ns → All (λ n. now < n) ns
weaken now e [] h hs = tt
weaken now e (n ∷ ns) h hs = (omega arith, weaken now e ns h hs.1)

above_of_min_of : (now e : ℕ) (ns : List ℕ) → min_of ns ≡ some e → now < e → All (λ n. now < n) ns
unfolding min_of
above_of_min_of now e [] h lt = tt
above_of_min_of now e (n ∷ ns) h lt =
    (ground (arith, least-le n ns), weaken now (least n ns) ns (ground arith) (least_below n ns))

times_After :
    (now : ℕ) (d : Dict String PendingTransition) (rest : List PendingTransition)
    → After now d
    → All (λ n. now < n) (map (λ (p : PendingTransition). p.expires_at) rest)
    → All (λ n. now < n) (map (λ (p : PendingTransition). p.expires_at) (values d ++ rest))
times_After now [] rest h hs = hs
times_After now ((k, p) ∷ d) rest h hs = (h.0, times_After now d rest h.1 hs)

After-of_times :
    (now : ℕ) (d : Dict String PendingTransition) (rest : List PendingTransition)
    → All (λ n. now < n) (map (λ (p : PendingTransition). p.expires_at) (values d ++ rest))
    → After now d × All (λ n. now < n) (map (λ (p : PendingTransition). p.expires_at) rest)
After-of_times now [] rest h = (tt, h)
After-of_times now ((k, p) ∷ d) rest h =
    let (before, behind) = After-of_times now d rest h.1 in ((h.0, before), behind)

values-After :
    (now : ℕ) (d : Dict String PendingTransition)
    → After now d
    → All (λ n. now < n) (map (λ (p : PendingTransition). p.expires_at) (values d))
values-After now [] h = tt
values-After now ((k, p) ∷ d) h = (h.0, values-After now d h.1)

After-of_values :
    (now : ℕ) (d : Dict String PendingTransition)
    → All (λ n. now < n) (map (λ (p : PendingTransition). p.expires_at) (values d))
    → After now d
After-of_values now [] h = tt
After-of_values now ((k, p) ∷ d) h = (h.0, After-of_values now d h.1)

-- All that is pending expires later than `now` exactly if the next expiry does.
pub After-iff_next_expiry :
    (t : PendingProcessTransitions) (now : ℕ) {e : ℕ}
    → next_expiry t ≡ some e
    → (now < e) ↔ (After now t.instances × After now t.supervisors)
unfolding next_expiry
After-iff_next_expiry t now {e} h = (
  λ lt.
      let (instances, behind) =
        After-of_times now t.instances (values t.supervisors)
          (above_of_min_of now e (times t) h lt) in
      (instances, After-of_values now t.supervisors behind),
  λ (instances, supervisors). min_of_above now e (times t) h (
      times_After now t.instances (values t.supervisors) instances
        (values-After now t.supervisors supervisors)),
)

keep_of_After :
    (now : ℕ) (d : Dict String PendingTransition) → After now d → keep_values (alive now) d ≡ d
unfolding keep
keep_of_After now [] h = refl
keep_of_After now ((k, t) ∷ d) h = ground (arith, keep_of_After now d h.1)

After-of_keep :
    (now : ℕ) (d : Dict String PendingTransition)
    → length (keep_values (alive now) d) ≡ length d
    → After now d
unfolding keep
After-of_keep now [] h = tt
After-of_keep now ((k, t) ∷ d) h = (
  ground (arith, length-keep-le (alive now) d),
  After-of_keep now d (ground (arith, length-keep-le (alive now) d)),
)

After-keep : (now : ℕ) (d : Dict String PendingTransition) → After now (keep_values (alive now) d)
unfolding keep
After-keep now [] = tt
After-keep now ((k, t) ∷ d) = ground (arith, After-keep now d)

same_of_After :
    (t : PendingProcessTransitions) (now : ℕ)
    → After now t.instances
    → After now t.supervisors
    → without_expired_transitions t now ≡ same
unfolding without_expired_transitions
same_of_After t now instances supervisors =
    ground
      (arith, keep_of_After now t.instances instances, keep_of_After now t.supervisors supervisors)

After-of_same :
    (t : PendingProcessTransitions) (now : ℕ)
    → without_expired_transitions t now ≡ same
    → After now t.instances × After now t.supervisors
unfolding without_expired_transitions
After-of_same t now h =
    (After-of_keep now t.instances (ground arith), After-of_keep now t.supervisors (ground arith))

-- With a transition pending, nothing is dropped exactly while the next expiry lies ahead; so an
-- expiry that is due always drops something, and one that is early never does.
pub without_expired-same_iff :
    (t : PendingProcessTransitions) (now : ℕ) {e : ℕ}
    → next_expiry t ≡ some e
    → (without_expired_transitions t now ≡ same) ↔ (now < e)
without_expired-same_iff t now h = (
  λ unchanged. (After-iff_next_expiry t now h).1 (After-of_same t now unchanged),
  λ lt.
      let (instances, supervisors) = (After-iff_next_expiry t now h).0 lt in
      same_of_After t now instances supervisors,
)

-- What is left after an expiry expires later.
pub next_expiry-without_expired :
    (t : PendingProcessTransitions) (now : ℕ) {e : ℕ}
    → next_expiry (apply (without_expired_transitions t now) t) ≡ some e
    → now < e
next_expiry-without_expired t now h =
    let t' = apply (without_expired_transitions t now) t in
    let (instances, supervisors) = apply-without_expired t now in
    (After-iff_next_expiry t' now h).1
      (rw instances (After-keep now t.instances), rw supervisors (After-keep now t.supervisors))
