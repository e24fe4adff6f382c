-- ===== src/Instances/Terminate.antt =====
-- `HorizonInstancesActions` and `useDelayedInstancesRevalidation` of resources/js/components/dashboard/
-- horizon-instances-actions.tsx, as a machine: the dialog, the request, the delay and the reload.
use horizon_new_dawn.Base.{
  ℕ, ◌+◌, ◌-◌, String, Bool, true, false, not, ◌&&◌, ◌≡◌, refl, Option, none, some, List, [], ◌∷◌,
  arith, ltb, if◌then◌else◌, by_test, Bool-cases, ◌⊎◌, inl, inr,
}
use horizon_new_dawn.Instances.Command.{
  Fetch, Answer, request_horizon_command, Toast, success, error, no_token, message_or,
}

abbrev pub fallback : String
fallback = "Horizon could not be terminated."

pub record Terminate : Type 0 where
  pub dialog_open : Bool
  -- `working` is "terminate" or null
  pub working : Bool
  -- the request is awaited
  pub awaiting : Bool
  -- `timeout.current`, and the reloads under way
  pub timer : Bool
  pub reloads : ℕ
  pub mounted : Bool
  pub toasts : List Toast

abbrev pub initial : Terminate
initial = record {
  dialog_open = false;
  working = false;
  awaiting = false;
  timer = false;
  reloads = 0;
  mounted = true;
  toasts = [];
}

-- `run`, up to the `await`.
unfoldable pub start : Option String → Terminate → Terminate
start csrf_token t =
    if no_token csrf_token
    then record t { toasts = record { title = fallback; type = error } ∷ t.toasts }
    else record t { working = true; awaiting = true }

-- The callback that `useDelayedInstancesRevalidation` returns: an earlier timeout is cleared.
unfoldable pub revalidate : Terminate → Terminate
revalidate t = record t { timer = true }

unfoldable pub refuse : String → Terminate → Terminate
refuse title t = record t {
  working = false;
  toasts = record { title = title; type = error } ∷ t.toasts;
}

unfoldable pub accept : String → Terminate → Terminate
unfolding revalidate
accept title t =
    revalidate (record t {
      dialog_open = false;
      toasts = record { title = title; type = success } ∷ t.toasts;
    })

abbrev pub answered : Option Answer → Terminate → Terminate
answered none t = refuse fallback t
answered (some answer) t =
    let title = message_or answer.message fallback in
    if answer.is_ok then accept title t else refuse title t

-- `run`, from the answer on.
unfoldable pub finish : Fetch → Terminate → Terminate
unfolding refuse accept request_horizon_command
finish fetch t = answered (request_horizon_command fetch) (record t { awaiting = false })

-- The timeout fires and reloads; the reload finishes, and calls back while the component is mounted.
unfoldable pub fire : Terminate → Terminate
fire t = record t { timer = false; reloads = t.reloads + 1 }

unfoldable pub on_finish : Terminate → Terminate
on_finish t = record t { reloads = t.reloads - 1; working = t.working && not t.mounted }

unfoldable pub unmount : Terminate → Terminate
unmount t = record t { mounted = false; timer = false }

pub data Event : Type 0 where
  select : Event
  dialog_change : Bool → Event
  confirm : Option String → Event
  answer : Fetch → Event
  elapse : Event
  reloaded : Event
  leave : Event

-- An answer comes to an awaited request, a timeout fires while it runs, a reload finishes that is under
-- way; the item and the button have their guards.
unfoldable pub step : Bool → Terminate → Event → Terminate
unfolding start finish fire on_finish unmount
step has_local_instance t select = if has_local_instance then record t { dialog_open = true } else t
step has_local_instance t (dialog_change on) = record t { dialog_open = on }
step has_local_instance t (confirm csrf_token) =
    if t.dialog_open && not t.working then start csrf_token t else t
step has_local_instance t (answer fetch) = if t.awaiting then finish fetch t else t
step has_local_instance t elapse = if t.timer then fire t else t
step has_local_instance t reloaded = if ltb 0 t.reloads then on_finish t else t
step has_local_instance t leave = unmount t

unfoldable pub run : Bool → Terminate → List Event → Terminate
run has_local_instance t [] = t
run has_local_instance t (e ∷ es) = run has_local_instance (step has_local_instance t e) es

abbrev pub one : Bool → ℕ
one true = 1
one false = 0

-- While mounted, the menu works exactly while the request, the delay or the reload is under way, and only
-- one of them is.
abbrev pub Works : Terminate → Type 0
Works t = (t.mounted ≡ false) ⊎ (one t.awaiting + one t.timer + t.reloads ≡ one t.working)

start-Works :
    (csrf_token : Option String) (t : Terminate)
    → t.working ≡ false
    → Works t
    → Works (start csrf_token t)
unfolding start
start-Works csrf_token t idle works =
    by_test Works (no_token csrf_token) (λ _. works)
      λ _. elim works [ inl gone ↦ inl gone | inr sum ↦ inr (ground (arith, sum, idle)) ]

refuse-Works :
    (title : String) (t : Terminate)
    → t.awaiting ≡ true
    → Works t
    → Works (refuse title (record t { awaiting = false }))
unfolding refuse
refuse-Works title t awaited (inl gone) = inl gone
refuse-Works title t awaited (inr sum) = inr (ground (arith, sum, awaited))

accept-Works :
    (title : String) (t : Terminate)
    → t.awaiting ≡ true
    → Works t
    → Works (accept title (record t { awaiting = false }))
unfolding accept revalidate
accept-Works title t awaited (inl gone) = inl gone
accept-Works title t awaited (inr sum) = inr (ground (arith, sum, awaited))

finish-Works :
    (fetch : Fetch) (t : Terminate) → t.awaiting ≡ true → Works t → Works (finish fetch t)
unfolding finish
finish-Works fetch t awaited works = end (request_horizon_command fetch)
  where
    end : (o : Option Answer) → Works (answered o (record t { awaiting = false }))
    end none = refuse-Works fallback t awaited works
    end (some a) =
        by_test Works a.is_ok (λ _. accept-Works (message_or a.message fallback) t awaited works)
          λ _. refuse-Works (message_or a.message fallback) t awaited works

fire-Works : (t : Terminate) → t.timer ≡ true → Works t → Works (fire t)
unfolding fire
fire-Works t running (inl gone) = inl gone
fire-Works t running (inr sum) = inr (ground (arith, sum, running))

on_finish-Works : (t : Terminate) → ltb 0 t.reloads ≡ true → Works t → Works (on_finish t)
unfolding on_finish
on_finish-Works t some_reload (inl gone) = inl gone
on_finish-Works t some_reload (inr sum) = elim (Bool-cases t.mounted) [
  | inl here ↦ inr (ground (arith, sum, some_reload, here))
  | inr gone ↦ inl gone
]

idle_of : (on working : Bool) → on && not working ≡ true → working ≡ false
idle_of on working h = ground arith

step-Works :
    (has_local_instance : Bool) (t : Terminate) (e : Event)
    → Works t
    → Works (step has_local_instance t e)
unfolding step unmount
step-Works has_local_instance t select works =
    by_test Works has_local_instance (λ _. works) λ _. works
step-Works has_local_instance t (dialog_change on) works = works
step-Works has_local_instance t (confirm csrf_token) works =
    by_test Works (t.dialog_open && not t.working)
      (λ free. start-Works csrf_token t (idle_of t.dialog_open t.working free) works) λ _. works
step-Works has_local_instance t (answer fetch) works =
    by_test Works t.awaiting (λ awaited. finish-Works fetch t awaited works) λ _. works
step-Works has_local_instance t elapse works =
    by_test Works t.timer (λ running. fire-Works t running works) λ _. works
step-Works has_local_instance t reloaded works =
    by_test Works (ltb 0 t.reloads) (λ some_reload. on_finish-Works t some_reload works) λ _. works
step-Works has_local_instance t leave works = inl refl

-- From a menu where this holds, whatever the user does, however the request is answered and whenever the delay
-- and the reload end: while the menu is on the page, it is busy exactly while the request, the delay or the
-- reload is under way, and only one of them is.
pub run-Works :
    (has_local_instance : Bool) (t : Terminate) (es : List Event)
    → Works t
    → Works (run has_local_instance t es)
unfolding run
run-Works has_local_instance t [] works = works
run-Works has_local_instance t (e ∷ es) works =
    run-Works has_local_instance (step has_local_instance t e) es
      (step-Works has_local_instance t e works)
