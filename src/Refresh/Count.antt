-- ===== src/Refresh/Count.antt =====
-- The counter counts the requests under way, and listeners are told of every change
-- (resources/js/lib/auto-refresh-status.ts).
use horizon_new_dawn.Base.{
  ℕ, zero, suc, ◌+◌, ◌≤◌, ◌<◌, true, not, ◌&&◌, ◌≡◌, refl, ◌↔◌, List, [], ◌∷◌, ◌++◌, arith, All,
  if◌then◌else◌,
}
use horizon_new_dawn.Refresh.Status.{
  AutoRefreshStatus, idle, refreshing, Store, Tracker, Callback, Event, track, call, current_status,
  handle, handle_at, step, run, new_tracker, on_success,
}

-- 1 for a request that has begun and not settled.
abbrev pub live : Tracker → ℕ
live t = if t.began && not t.settled then 1 else 0

abbrev pub live_count : List Tracker → ℕ
live_count [] = 0
live_count (t ∷ ts) = live t + live_count ts

-- What a listener has read last.
abbrev pub last_read : List AutoRefreshStatus → AutoRefreshStatus
last_read [] = idle
last_read (x ∷ xs) = x

abbrev pub Told : Store → Type 0
Told s = last_read s.emissions ≡ current_status s

-- Nothing settles that has not begun.
abbrev pub IsOrdered : Tracker → Type 0
IsOrdered t = t.settled ≡ true → t.began ≡ true

handle-live :
    (c : Callback) (s : Store) (t : Tracker)
    → IsOrdered t
    → live t ≤ s.active_count
    → (handle c s t).0.active_count + live t ≡ s.active_count + live (handle c s t).1
unfolding handle
handle-live on_success s t o h = ground arith
handle-live _ s t o h = ground arith

handle-IsOrdered :
    (c : Callback) (s : Store) (t : Tracker) → IsOrdered t → IsOrdered (handle c s t).1
unfolding handle
handle-IsOrdered on_success s t o = o
handle-IsOrdered _ s t o = λ h. ground arith

handle-Told : (c : Callback) (s : Store) (t : Tracker) → Told s → Told (handle c s t).0
unfolding handle current_status
handle-Told on_success s t h = ground arith
handle-Told _ s t h = ground arith

abbrev pub Counts : Store → List Tracker → Type 0
Counts s ts = (s.active_count ≡ live_count ts) × Told s × All IsOrdered ts

-- The index is that of a request, or the callback belongs to no request.
handle_at-live :
    (i : ℕ) (c : Callback) (s : Store) (ts : List Tracker)
    → All IsOrdered ts
    → live_count ts ≤ s.active_count
    → (handle_at i c s ts).0.active_count + live_count ts
      ≡ s.active_count + live_count (handle_at i c s ts).1
unfolding handle_at
handle_at-live i c s [] o h = refl
handle_at-live zero c s (t ∷ ts) o h = omega (arith, handle-live c s t o.0 (omega arith))
handle_at-live (suc i) c s (t ∷ ts) o h = omega (arith, handle_at-live i c s ts o.1 (omega arith))

handle_at-IsOrdered :
    (i : ℕ) (c : Callback) (s : Store) (ts : List Tracker)
    → All IsOrdered ts
    → All IsOrdered (handle_at i c s ts).1
unfolding handle_at
handle_at-IsOrdered i c s [] o = tt
handle_at-IsOrdered zero c s (t ∷ ts) o = (handle-IsOrdered c s t o.0, o.1)
handle_at-IsOrdered (suc i) c s (t ∷ ts) o = (o.0, handle_at-IsOrdered i c s ts o.1)

append-IsOrdered : (ts : List Tracker) → All IsOrdered ts → All IsOrdered (ts ++ new_tracker ∷ [])
append-IsOrdered [] o = (λ h. cc, tt)
append-IsOrdered (t ∷ ts) o = (o.0, append-IsOrdered ts o.1)

handle_at-Told :
    (i : ℕ) (c : Callback) (s : Store) (ts : List Tracker) → Told s → Told (handle_at i c s ts).0
unfolding handle_at
handle_at-Told i c s [] h = h
handle_at-Told zero c s (t ∷ ts) h = handle-Told c s t h
handle_at-Told (suc i) c s (t ∷ ts) h = handle_at-Told i c s ts h

live_count-append : (ts us : List Tracker) → live_count (ts ++ us) ≡ live_count ts + live_count us
live_count-append [] us = omega arith
live_count-append (t ∷ ts) us = omega (arith, live_count-append ts us)

pub step-Counts :
    (e : Event) (s : Store) (ts : List Tracker)
    → Counts s ts
    → Counts (step e s ts).0 (step e s ts).1
unfolding step
step-Counts track s ts (count, told, ordered) =
    (omega (arith, live_count-append ts (new_tracker ∷ [])), told, append-IsOrdered ts ordered)
step-Counts (call i c) s ts (count, told, ordered) = (
  omega (arith, handle_at-live i c s ts ordered (omega arith)),
  handle_at-Told i c s ts told,
  handle_at-IsOrdered i c s ts ordered,
)

-- From a store that counts its requests, any interleaving of callbacks of any number of requests
-- keeps the counter equal to the number of requests that have begun and not settled, leaves a
-- listener with the current status, and settles no request that has not begun.
pub run-Counts :
    (es : List Event) (s : Store) (ts : List Tracker)
    → Counts s ts
    → Counts (run es s ts).0 (run es s ts).1
unfolding run
run-Counts [] s ts h = h
run-Counts (e ∷ es) s ts h = run-Counts es (step e s ts).0 (step e s ts).1 (step-Counts e s ts h)

-- From a store that counts its requests, after any interleaving of callbacks the status is
-- `refreshing` exactly while some request has begun and not settled.
pub refreshing_iff_live :
    (es : List Event) (s : Store) (ts : List Tracker)
    → Counts s ts
    → (current_status (run es s ts).0 ≡ refreshing) ↔ (0 < live_count (run es s ts).1)
unfolding current_status
refreshing_iff_live es s ts h =
    let (count, _, _) = run-Counts es s ts h in (λ now. ground arith, λ busy. ground arith)
