-- ===== src/Transitions/Invariant.antt =====
-- What holds of the hook's state after any sequence of events (resources/js/hooks/
-- use-process-transitions.ts).
use horizon_new_dawn.Base.{
  sym, ℕ, ◌+◌, ◌-◌, ◌≤◌, String, ◌≡◌, refl, inl, inr, ==-cases, Bool-cases, ◌∙◌, Option, none, some,
  List, [], ◌∷◌, arith, ltb, string_eq, nat_eq, option_eq,
}
use horizon_new_dawn.Base.Dict.{insert-NodupKeys, erase-NodupKeys}
use horizon_new_dawn.Transitions.Model.{
  HorizonTransitionStatus, DashboardSupervisors, Update, same, replaced, next_expiry,
  without_expired_transitions, min_of,
}
use horizon_new_dawn.Transitions.Hook.{
  Timer, Hook, initial, on_supervisors, on_instance_transition, on_supervisor_transition,
  on_instance_transition_failure, on_supervisor_transition_failure, on_timeout, arm, expire, fire,
  finish_expiry, run_expiry_effect, fresh_transition,
}
use horizon_new_dawn.Transitions.Run.{Event, handle, step, run}
use horizon_new_dawn.Transitions.Reconcile.{IsValid, reconcile_transitions-IsValid}
use horizon_new_dawn.Transitions.Expiry.{
  without_expired-IsValid, without_expired-same_iff, next_expiry-without_expired,
}

-- The timeout for an expiry: there is one exactly if something is pending.
abbrev pub IsArmed : Option ℕ → Option Timer → Type 0
IsArmed none t = t ≡ none
IsArmed (some expiry) t =
    (due : ℕ) × (t ≡ some (record { armed_for = expiry; due = due })) × (expiry ≤ due)

-- Between events, before the expiry effect of the render has run: what the handlers keep.
pub record IsSound (s : Hook) : Type 0 where
  pub valid : IsValid s.transitions
  pub shown : s.pending_transitions ≡ s.transitions

pub record Inv (s : Hook) : Type 0 where
  pub sound : IsSound s
  pub tracked : s.expires_at ≡ next_expiry s.transitions
  pub armed : IsArmed s.expires_at s.timer

-- A handler changes the transitions, and leaves the timeout or removes it when an expiry fired.
on_supervisors-IsSound :
    (s : Hook) (d : Option DashboardSupervisors) → IsSound s → IsSound (on_supervisors s d)
unfolding on_supervisors
on_supervisors-IsSound s none v = v
on_supervisors-IsSound s (some d) v =
    ground (arith, reconcile_transitions-IsValid s.transitions d v.valid)

on_instance_transition-IsSound :
    (d : Option DashboardSupervisors) (configured : ℕ) (s : Hook) (name : String)
    (status : HorizonTransitionStatus) (now : ℕ)
    → IsSound s
    → IsSound (on_instance_transition d configured s name status now).0
unfolding on_instance_transition
on_instance_transition-IsSound d configured s name status now v = ground (
  arith,
  insert-NodupKeys name (fresh_transition s status now configured) s.transitions.instances
      v.valid.instances,
)

on_supervisor_transition-IsSound :
    (d : Option DashboardSupervisors) (configured : ℕ) (s : Hook) (id : String)
    (status : HorizonTransitionStatus) (now : ℕ)
    → IsSound s
    → IsSound (on_supervisor_transition d configured s id status now).0
unfolding on_supervisor_transition
on_supervisor_transition-IsSound d configured s id status now v = ground (
  arith,
  insert-NodupKeys id (fresh_transition s status now configured) s.transitions.supervisors
      v.valid.supervisors,
)

on_instance_failure-IsSound :
    (s : Hook) (name : String) (token : ℕ)
    → IsSound s
    → IsSound (on_instance_transition_failure s name token)
unfolding on_instance_transition_failure
on_instance_failure-IsSound s name token v =
    ground (arith, erase-NodupKeys name s.transitions.instances v.valid.instances)

on_supervisor_failure-IsSound :
    (s : Hook) (id : String) (token : ℕ)
    → IsSound s
    → IsSound (on_supervisor_transition_failure s id token)
unfolding on_supervisor_transition_failure
on_supervisor_failure-IsSound s id token v =
    ground (arith, erase-NodupKeys id s.transitions.supervisors v.valid.supervisors)

on_timeout-IsSound : (s : Hook) (now : ℕ) → IsSound s → IsSound (on_timeout s now)
unfolding on_timeout
on_timeout-IsSound s now v = ground (arith, without_expired-IsValid s.transitions now v.valid)

pub handle-IsSound : (s : Hook) (e : Event) (now : ℕ) → IsSound s → IsSound (handle s e now)
unfolding handle
handle-IsSound s (Event.report d) now v = on_supervisors-IsSound s d v
handle-IsSound s (Event.instance_transition d c name status) now v =
    on_instance_transition-IsSound d c s name status now v
handle-IsSound s (Event.supervisor_transition d c id status) now v =
    on_supervisor_transition-IsSound d c s id status now v
handle-IsSound s (Event.instance_failure name token) now v =
    on_instance_failure-IsSound s name token v
handle-IsSound s (Event.supervisor_failure id token) now v =
    on_supervisor_failure-IsSound s id token v
handle-IsSound s Event.timeout now v = on_timeout-IsSound s now v

-- What the expiry effect needs: an expiry that it leaves alone has its timeout.
abbrev Ready : Hook → Type 0
Ready s = next_expiry s.transitions ≡ s.expires_at → IsArmed s.expires_at s.timer

IsArmed-arm : (o : Option ℕ) (now : ℕ) → IsArmed o (arm o now)
unfolding arm
IsArmed-arm none now = refl
IsArmed-arm (some e) now = (now + (e - now), refl, omega arith)

run_expiry_effect-Inv : (s : Hook) (now : ℕ) → IsSound s → Ready s → Inv (run_expiry_effect s now)
unfolding run_expiry_effect
run_expiry_effect-Inv s now v ready =
    elim (==-cases (next_expiry s.pending_transitions) s.expires_at) [
      | inl (yes_same, e) ↦
          let e' : next_expiry s.transitions ≡ s.expires_at = rw (← v.shown) e in
          rw yes_same (record { sound = v; tracked = sym e'; armed = ready e' })
      | inr (moved, _) ↦ rw moved (record {
        sound = record { valid = v.valid; shown = v.shown };
        tracked = rw v.shown;
        armed = IsArmed-arm _ now;
      })
    ]

finish_expiry-Ready :
    (s : Hook) (e now : ℕ) (u : Update)
    → next_expiry s.transitions ≡ some e
    → s.expires_at ≡ some e
    → e ≤ now
    → without_expired_transitions s.transitions now ≡ u
    → Ready (finish_expiry s u)
unfolding finish_expiry
finish_expiry-Ready s e now same next tracked late u h =
    absurd (omega (arith, (without_expired-same_iff s.transitions now next).0 u))
finish_expiry-Ready s e now (replaced t) next tracked late u h =
    absurd
      (omega (arith, next_expiry-without_expired s.transitions now {e = e} (rw u (h ∙ tracked))))

expire-Ready :
    (s : Hook) (e now : ℕ)
    → next_expiry s.transitions ≡ some e
    → s.expires_at ≡ some e
    → Ready (expire s e now)
unfolding expire
expire-Ready s e now next tracked = elim (Bool-cases (ltb now e)) [
  | inl early ↦ rw early (λ _. rw tracked (now + (e - now), refl, omega arith))
  | inr late ↦ rw late (
      finish_expiry-Ready s e now (without_expired_transitions s.transitions now) next tracked
        (ground arith) refl)
]

fire-Ready :
    (s : Hook) (now : ℕ) (o : Option ℕ) (t : Option Timer)
    → s.timer ≡ t
    → s.expires_at ≡ o
    → next_expiry s.transitions ≡ o
    → IsArmed o t
    → Ready (fire s t now)
unfolding fire
fire-Ready s now none none timer tracked next armed = λ h. simp tracked timer
fire-Ready s now (some e) none timer tracked next (due, eq', _) = cc
fire-Ready s now none (some t) timer tracked next armed = cc
fire-Ready s now (some e) (some t) timer tracked next (due, eq', _) =
    let same_expiry : t.armed_for ≡ e = ground arith in
    rw same_expiry (expire-Ready s e now next tracked)

-- Only an expiry touches the timeout.
on_timeout-Ready : (s : Hook) (now : ℕ) → Inv s → Ready (on_timeout s now)
unfolding on_timeout
on_timeout-Ready s now v = fire-Ready s now s.expires_at s.timer refl refl (sym v.tracked) v.armed

handle-Ready : (s : Hook) (e : Event) (now : ℕ) → Inv s → Ready (handle s e now)
unfolding handle on_supervisors on_instance_transition on_supervisor_transition
    on_instance_transition_failure on_supervisor_transition_failure
handle-Ready s (Event.report none) now v h = v.armed
handle-Ready s (Event.report (some d)) now v h = ground arith
handle-Ready s (Event.instance_transition d c name status) now v h = ground arith
handle-Ready s (Event.supervisor_transition d c id status) now v h = ground arith
handle-Ready s (Event.instance_failure name token) now v h = ground arith
handle-Ready s (Event.supervisor_failure id token) now v h = ground arith
handle-Ready s Event.timeout now v h = on_timeout-Ready s now v h

pub step-Inv : (s : Hook) (e : Event) (now : ℕ) → Inv s → Inv (step s e now)
unfolding step
step-Inv s e now v =
    run_expiry_effect-Inv (handle s e now) now (handle-IsSound s e now v.sound)
      (handle-Ready s e now v)

pub initial-Inv : Inv initial
unfolding initial next_expiry min_of
initial-Inv = record {
  sound = record { valid = record { instances = tt; supervisors = tt }; shown = refl };
  tracked = refl;
  armed = refl;
}

-- From a state that keeps the invariant, whatever happens and whenever: no key is held twice, the
-- page shows the transitions that the handlers read, and a timeout runs exactly while something
-- is pending, set for the next expiry and due no earlier.
pub run-Inv : (es : List (ℕ × Event)) (s : Hook) → Inv s → Inv (run s es)
unfolding run
run-Inv [] s v = v
run-Inv ((now, e) ∷ es) s v = run-Inv es (step s e now) (step-Inv s e now v)
