-- ===== src/Transitions/Run.antt =====
-- `useProcessTransitions` over a sequence of events (resources/js/hooks/
-- use-process-transitions.ts): each event's handler, then the expiry effect of the render.
use horizon_new_dawn.Base.{ℕ, String, Option, List, [], ◌∷◌}
use horizon_new_dawn.Transitions.Model.{HorizonTransitionStatus, DashboardSupervisors}
use horizon_new_dawn.Transitions.Hook.{
  Hook, on_supervisors, on_instance_transition, on_supervisor_transition,
  on_instance_transition_failure, on_supervisor_transition_failure, on_timeout, run_expiry_effect,
}

pub data Event : Type 0 where
  report : Option DashboardSupervisors → Event
  instance_transition : Option DashboardSupervisors → ℕ → String → HorizonTransitionStatus → Event
  supervisor_transition : Option DashboardSupervisors → ℕ → String → HorizonTransitionStatus → Event
  instance_failure : String → ℕ → Event
  supervisor_failure : String → ℕ → Event
  timeout : Event

unfoldable pub handle : Hook → Event → ℕ → Hook
handle s (report supervisors) now = on_supervisors s supervisors
handle s (instance_transition supervisors configured name status) now =
    (on_instance_transition supervisors configured s name status now).0
handle s (supervisor_transition supervisors configured id status) now =
    (on_supervisor_transition supervisors configured s id status now).0
handle s (instance_failure name token) now = on_instance_transition_failure s name token
handle s (supervisor_failure id token) now = on_supervisor_transition_failure s id token
handle s timeout now = on_timeout s now

unfoldable pub step : Hook → Event → ℕ → Hook
step s e now = run_expiry_effect (handle s e now) now

-- Events with the times at which they occur.
unfoldable pub run : Hook → List (ℕ × Event) → Hook
run s [] = s
run s ((now, e) ∷ es) = run (step s e now) es
