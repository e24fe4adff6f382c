-- ===== src/Refresh/Listeners.antt =====
-- The listeners of resources/js/lib/auto-refresh-status.ts. A listener is `useSyncExternalStore`, which reads
-- the status when it subscribes and each time that it is called.
use mathlib.Core.Path.{subst}
use horizon_new_dawn.Base.{
  ℕ, zero, suc, Bool, ap, sym, ◌∙◌, Bool-cases, not, ◌||◌, true, false, ◌≡◌, refl, ◌⊎◌, inl, inr,
  List, [], ◌∷◌, arith, All, length, ltb, if◌then◌else◌, ◌==◌, nat_eq, by_test,
}
use horizon_new_dawn.Refresh.Status.{
  AutoRefreshStatus, Store, Tracker, Callback, Event, track, call, current_status, handle,
  handle_at, step, on_success, on_error, on_network_error, on_http_exception, on_cancel_token,
  on_start, on_cancel, on_finish, begin, settle, emit, mark_failure, or_first, cancel,
}

-- The listeners by their identity, each with what it has read last.
abbrev pub Listeners : Type 0
Listeners = List (ℕ × AutoRefreshStatus)

pub record Shared : Type 0 where
  pub store : Store
  pub trackers : List Tracker
  pub listeners : Listeners

abbrev pub all_read : AutoRefreshStatus → Listeners → Listeners
all_read status [] = []
all_read status ((l, read) ∷ ls) = (l, status) ∷ all_read status ls

-- `listeners.add(listener)`: a set holds a listener once.
unfoldable pub add : ℕ → AutoRefreshStatus → Listeners → Listeners
add l status [] = (l, status) ∷ []
add l status ((k, read) ∷ ls) =
    let rest = add l status ls in if k == l then (k, status) ∷ ls else (k, read) ∷ rest

unfoldable pub delete : ℕ → Listeners → Listeners
delete l [] = []
delete l ((k, read) ∷ ls) = let rest = delete l ls in if k == l then rest else (k, read) ∷ rest

-- A call of every listener: it reads the status that the latest `emit` gave it to read.
abbrev pub called : List AutoRefreshStatus → Listeners → Listeners
called [] ls = ls
called (status ∷ earlier) ls = all_read status ls

-- What `emit` does to the listeners, if the store has emitted.
abbrev pub told : Store → Store → Listeners → Listeners
told before after ls =
    if ltb (length before.emissions) (length after.emissions) then called after.emissions ls else ls

pub data Action : Type 0 where
  request : Event → Action
  subscribe unsubscribe : ℕ → Action

unfoldable pub act : Action → Shared → Shared
unfolding step current_status
act (request e) r =
    let after = step e r.store r.trackers in
    record r { store = after.0; trackers = after.1; listeners = told r.store after.0 r.listeners }
act (subscribe l) r = record r { listeners = add l (current_status r.store) r.listeners }
act (unsubscribe l) r = record r { listeners = delete l r.listeners }

unfoldable pub act_all : List Action → Shared → Shared
unfolding act
act_all [] r = r
act_all (a ∷ actions) r = act_all actions (act a r)

-- Every listener has read the status of the store.
abbrev pub UpToDate : AutoRefreshStatus → Listeners → Type 0
UpToDate status = All (λ (entry : ℕ × AutoRefreshStatus). entry.1 ≡ status)

add-UpToDate :
    (l : ℕ) (status : AutoRefreshStatus) (ls : Listeners)
    → UpToDate status ls
    → UpToDate status (add l status ls)
unfolding add
add-UpToDate l status [] u = (refl, tt)
add-UpToDate l status ((k, read) ∷ ls) (h, u) =
    by_test (UpToDate status) (k == l) (λ same. (refl, u))
      (λ other. (h, add-UpToDate l status ls u))

delete-UpToDate :
    (l : ℕ) (status : AutoRefreshStatus) (ls : Listeners)
    → UpToDate status ls
    → UpToDate status (delete l ls)
unfolding delete
delete-UpToDate l status [] u = tt
delete-UpToDate l status ((k, read) ∷ ls) (h, u) =
    by_test (UpToDate status) (k == l) (λ same. delete-UpToDate l status ls u)
      (λ other. (h, delete-UpToDate l status ls u))

all_read-UpToDate :
    (status : AutoRefreshStatus) (ls : Listeners) → UpToDate status (all_read status ls)
all_read-UpToDate status [] = tt
all_read-UpToDate status ((l, read) ∷ ls) = (refl, all_read-UpToDate status ls)

-- The status is as before and nothing was emitted, or the status afterwards was emitted.
abbrev Emits : Store → Store → Type 0
Emits before after =
    ((current_status after ≡ current_status before) × (after.emissions ≡ before.emissions))
    ⊎ (after.emissions ≡ current_status after ∷ before.emissions)

begin-Emits : (s : Store) (t : Tracker) → Emits s (begin s t).0
unfolding begin emit
begin-Emits s t = elim (Bool-cases t.began) [
  | inl begun ↦ rw begun (inl (refl, refl))
  | inr fresh ↦ rw fresh (inr refl)
]

settle-Emits : (s : Store) (t : Tracker) → Emits s (settle s t).0
unfolding settle emit
settle-Emits s t = elim (Bool-cases (not t.began || t.settled)) [
  | inl over ↦ rw over (inl (refl, refl))
  | inr running ↦ rw running (inr refl)
]

handle-Emits : (c : Callback) (s : Store) (t : Tracker) → Emits s (handle c s t).0
unfolding handle current_status begin settle emit mark_failure
handle-Emits on_success s t = inl (refl, refl)
handle-Emits on_error s t = inl (refl, refl)
handle-Emits on_network_error s t = inl (refl, refl)
handle-Emits on_http_exception s t = inl (refl, refl)
handle-Emits on_cancel_token s t = begin-Emits s t
handle-Emits on_start s t = begin-Emits s t
handle-Emits on_cancel s t = settle-Emits s (record t { outcome = or_first t.outcome cancel })
handle-Emits on_finish s t = settle-Emits s t

handle_at-Emits :
    (i : ℕ) (c : Callback) (s : Store) (ts : List Tracker) → Emits s (handle_at i c s ts).0
unfolding handle_at
handle_at-Emits i c s [] = inl (refl, refl)
handle_at-Emits zero c s (t ∷ ts) = handle-Emits c s t
handle_at-Emits (suc i) c s (t ∷ ts) = handle_at-Emits i c s ts

step-Emits : (e : Event) (s : Store) (ts : List Tracker) → Emits s (step e s ts).0
unfolding step
step-Emits track s ts = inl (refl, refl)
step-Emits (call i c) s ts = handle_at-Emits i c s ts

not_below_itself : (n : ℕ) → ltb n n ≡ false
not_below_itself n = ground arith

below_next : (n : ℕ) → ltb n (suc n) ≡ true
below_next n = ground arith

told-UpToDate :
    (before after : Store) (ls : Listeners)
    → Emits before after
    → UpToDate (current_status before) ls
    → UpToDate (current_status after) (told before after ls)
unfolding current_status
told-UpToDate before after ls (inl (same, quiet)) u =
    let still =
      ap (ltb (length before.emissions)) (ap length quiet)
      ∙ not_below_itself (length before.emissions) in
    subst
      (λ (b : Bool). UpToDate (current_status after) (if b then called after.emissions ls else ls))
      (sym still) (rw same u)
told-UpToDate before after ls (inr emitted) u =
    rw (emitted, below_next (length before.emissions)) (all_read-UpToDate (current_status after) ls)

act-UpToDate :
    (a : Action) (r : Shared)
    → UpToDate (current_status r.store) r.listeners
    → UpToDate (current_status (act a r).store) (act a r).listeners
unfolding act
act-UpToDate (request e) r u =
    told-UpToDate r.store (step e r.store r.trackers).0 r.listeners
      (step-Emits e r.store r.trackers) u
act-UpToDate (subscribe l) r u = add-UpToDate l (current_status r.store) r.listeners u
act-UpToDate (unsubscribe l) r u = delete-UpToDate l (current_status r.store) r.listeners u

-- If every listener has last read the current status, this stays so, whatever callbacks of requests run and
-- whatever listeners subscribe and unsubscribe, where a call of `emit` lets each listener read the status of that
-- moment.
pub act_all-UpToDate :
    (actions : List Action) (r : Shared)
    → UpToDate (current_status r.store) r.listeners
    → UpToDate (current_status (act_all actions r).store) (act_all actions r).listeners
unfolding act_all
act_all-UpToDate [] r u = u
act_all-UpToDate (a ∷ actions) r u = act_all-UpToDate actions (act a r) (act-UpToDate a r u)
