-- ===== src/Transitions/Exclusion.antt =====
-- An instance and one of its supervisors are never pending together (resources/js/hooks/
-- use-process-transitions.ts), as long as Horizon's instances and supervisors stay the same.
use horizon_new_dawn.Base.{
  ℕ, String, Bool, ◌≡◌, ◌⊎◌, inl, inr, Option, some, List, [], ◌∷◌, arith, string_eq, find, All,
}
use horizon_new_dawn.Transitions.Model.{SupervisorGroup, DashboardSupervisors, PendingTransition}
use horizon_new_dawn.Transitions.Hook.{
  Hook, named, owns, available_groups, run_expiry_effect, fresh_transition,
}
use horizon_new_dawn.Transitions.Effects.{
  InstanceStart, SupervisorStart, on_instance_transition_lem, on_supervisor_transition_lem,
  on_supervisors-Shrinks, instance_failure-Shrinks, supervisor_failure-Shrinks, on_timeout-Shrinks,
}
use horizon_new_dawn.Transitions.Run.{Event, handle, step, run}
use horizon_new_dawn.Transitions.Invariant.{Inv, step-Inv}
use horizon_new_dawn.Transitions.Shape.{
  ids, shape, Shape, IsUnambiguous, IsExclusive, Shrinks-IsExclusive, find-lookup, find-owner,
  AllIdle-of_busy, instance-IsExclusive, supervisor-IsExclusive,
}

-- The page's prop, where it is available, shows the instances and supervisors of the shape.
abbrev pub Shows : Shape → Option DashboardSupervisors → Type 0
Shows σ d = (available_groups d ≡ []) ⊎ (shape (available_groups d) ≡ σ)

abbrev pub EventShows : Shape → Event → Type 0
EventShows σ (Event.instance_transition d configured name status) = Shows σ d
EventShows σ (Event.supervisor_transition d configured id status) = Shows σ d
EventShows σ (Event.report d) = Unit
EventShows σ (Event.instance_failure name token) = Unit
EventShows σ (Event.supervisor_failure id token) = Unit
EventShows σ Event.timeout = Unit

find-nil :
    (p : SupervisorGroup → Bool) (gs : List SupervisorGroup) (g : SupervisorGroup)
    → gs ≡ []
    → find p gs ≡ some g
    → ⊥
unfolding find
find-nil p [] g e h = cc
find-nil p (x ∷ gs) g e h = cc

InstanceStart-IsExclusive :
    (σ : Shape) (s : Hook) (d : Option DashboardSupervisors) (name : String) (p : PendingTransition)
    (result : Hook × Option ℕ)
    → IsUnambiguous σ
    → Shows σ d
    → IsExclusive σ s.transitions
    → InstanceStart (available_groups d) s name p result
    → IsExclusive σ result.0.transitions
InstanceStart-IsExclusive σ s d name p result u shows x (InstanceStart.unknown _ e) = rw e x
InstanceStart-IsExclusive σ s d name p result u shows x (InstanceStart.refused g _ _ e) = rw e x
InstanceStart-IsExclusive σ s d name p result u (inl empty) x
      (InstanceStart.started g known _ _ e) =
    absurd (find-nil (named name) (available_groups d) g empty known)
InstanceStart-IsExclusive σ s d name p result u (inr seen) x
      (InstanceStart.started g known free idle e) =
    rw e (
      instance-IsExclusive σ s.transitions name p (ids g) u
        (rw (← seen) (find-lookup (available_groups d) name g known))
        (AllIdle-of_busy s.transitions g.items idle) x)

SupervisorStart-IsExclusive :
    (σ : Shape) (s : Hook) (d : Option DashboardSupervisors) (id : String) (p : PendingTransition)
    (result : Hook × Option ℕ)
    → IsUnambiguous σ
    → Shows σ d
    → IsExclusive σ s.transitions
    → SupervisorStart (available_groups d) s id p result
    → IsExclusive σ result.0.transitions
SupervisorStart-IsExclusive σ s d id p result u shows x (SupervisorStart.unknown _ e) = rw e x
SupervisorStart-IsExclusive σ s d id p result u shows x (SupervisorStart.refused g _ _ e) = rw e x
SupervisorStart-IsExclusive σ s d id p result u (inl empty) x
      (SupervisorStart.started g known _ _ e) =
    absurd (find-nil (owns id) (available_groups d) g empty known)
SupervisorStart-IsExclusive σ s d id p result u (inr seen) x
      (SupervisorStart.started g known free idle e) =
    rw e (
      supervisor-IsExclusive σ s.transitions id p g.name u
        (rw (← seen) (find-owner (available_groups d) id g known)) free x)

handle-IsExclusive :
    (σ : Shape) (s : Hook) (e : Event) (now : ℕ)
    → IsUnambiguous σ
    → EventShows σ e
    → Inv s
    → IsExclusive σ s.transitions
    → IsExclusive σ (handle s e now).transitions
unfolding handle
handle-IsExclusive σ s (Event.report d) now u shows v x =
    Shrinks-IsExclusive σ _ s.transitions (on_supervisors-Shrinks s d v.sound.valid) x
handle-IsExclusive σ s (Event.instance_transition d configured name status) now u shows v x =
    InstanceStart-IsExclusive σ s d name (fresh_transition s status now configured) _ u shows x
      (on_instance_transition_lem d configured s name status now)
handle-IsExclusive σ s (Event.supervisor_transition d configured id status) now u shows v x =
    SupervisorStart-IsExclusive σ s d id (fresh_transition s status now configured) _ u shows x
      (on_supervisor_transition_lem d configured s id status now)
handle-IsExclusive σ s (Event.instance_failure name token) now u shows v x =
    Shrinks-IsExclusive σ _ s.transitions (instance_failure-Shrinks s name token) x
handle-IsExclusive σ s (Event.supervisor_failure id token) now u shows v x =
    Shrinks-IsExclusive σ _ s.transitions (supervisor_failure-Shrinks s id token) x
handle-IsExclusive σ s Event.timeout now u shows v x =
    Shrinks-IsExclusive σ _ s.transitions (on_timeout-Shrinks s now v.sound.valid) x

step-transitions :
    (s : Hook) (e : Event) (now : ℕ) → (step s e now).transitions ≡ (handle s e now).transitions
unfolding step run_expiry_effect
step-transitions s e now = ground arith

-- Whatever is requested, reported, refused or timed out, in any order and at any times, an
-- instance and one of its supervisors are never both pending, where the page shows one set of
-- instances, with distinct names and no shared supervisor, and the start keeps the invariant and
-- has no such pair.
pub run-IsExclusive :
    (σ : Shape) (es : List (ℕ × Event)) (s : Hook)
    → IsUnambiguous σ
    → All (λ (e : ℕ × Event). EventShows σ e.1) es
    → Inv s
    → IsExclusive σ s.transitions
    → IsExclusive σ (run s es).transitions
unfolding run
run-IsExclusive σ [] s u shows v x = x
run-IsExclusive σ ((now, e) ∷ es) s u (shown, shows) v x =
    run-IsExclusive σ es (step s e now) u shows (step-Inv s e now v)
      (rw (step-transitions s e now) (handle-IsExclusive σ s e now u shown v x))
