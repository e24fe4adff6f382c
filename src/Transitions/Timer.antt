-- ===== src/Transitions/Timer.antt =====
-- Pending transitions end: each has a running timeout, and a timeout that is due drops what has
-- expired and tells the user (resources/js/hooks/use-process-transitions.ts).
use horizon_new_dawn.Base.{
  ℕ, ◌+◌, ◌*◌, ◌≤◌, String, ◌≡◌, refl, sym, ◌∙◌, Option, none, some, ◌∷◌, arith, string_eq,
}
use horizon_new_dawn.Base.Dict.{Dict, lookup, only}
use horizon_new_dawn.Transitions.Model.{
  Update, same, replaced, apply, alive, next_expiry, HorizonTransitionStatus,
  without_expired_transitions, resolve_process_transition_timeout,
}
use horizon_new_dawn.Transitions.Hook.{
  Timer, Hook, fresh_transition, transition_timeout_message, finish_expiry, on_timeout,
}
use horizon_new_dawn.Transitions.Invariant.{Inv, IsArmed}
use horizon_new_dawn.Transitions.Expiry.{lookup-without_expired, without_expired-same_iff}

armed_at :
    (s : Hook) (o : Option ℕ) (t : Timer)
    → IsArmed o s.timer
    → s.timer ≡ some t
    → (o ≡ some t.armed_for) × (t.armed_for ≤ t.due)
armed_at s none t armed h = cc
armed_at s (some e) t (due, e', le) h = (ground arith, ground arith)

dropped :
    (s : Hook) (now : ℕ) (u : Update) {e : ℕ}
    → next_expiry s.transitions ≡ some e
    → e ≤ now
    → without_expired_transitions s.transitions now ≡ u
    → ((finish_expiry s u).transitions ≡ apply u s.transitions)
      × ((finish_expiry s u).toasts ≡ transition_timeout_message ∷ s.toasts)
unfolding finish_expiry
dropped s now same next late u =
    absurd (omega (arith, (without_expired-same_iff s.transitions now next).0 u))
dropped s now (replaced t) next late u = (refl, refl)

-- In a state that keeps the invariant, the running timeout, fired when it is due or later, drops
-- exactly the transitions that have expired by then, and adds the timeout message to the toasts.
pub due_timeout_expires :
    (s : Hook) (now : ℕ) {t : Timer} (key : String)
    → Inv s
    → s.timer ≡ some t
    → t.due ≤ now
    → let s' = on_timeout s now in
      (lookup key s'.transitions.instances ≡ only (alive now) (lookup key s.transitions.instances))
      × (lookup key s'.transitions.supervisors
          ≡ only (alive now) (lookup key s.transitions.supervisors))
      × (s'.toasts ≡ transition_timeout_message ∷ s.toasts)
unfolding on_timeout
due_timeout_expires s now {t} key v running due =
    let (expiry, le) = armed_at s s.expires_at t v.armed running in
    let (moved, told) =
      dropped s now (without_expired_transitions s.transitions now) {e = t.armed_for}
        (sym v.tracked ∙ expiry) (omega arith) refl in
    let (instances, supervisors) = lookup-without_expired s.transitions now key v.sound.valid in
    ground (arith, moved, told, instances, supervisors)

-- A transition is given at least thirty seconds, and at least six polls where polling is on.
pub fresh_transition-expires :
    (s : Hook) (status : HorizonTransitionStatus) (now configured : ℕ)
    → (now + 30000 ≤ (fresh_transition s status now configured).expires_at)
      × (now + 6 * configured ≤ (fresh_transition s status now configured).expires_at)
unfolding fresh_transition resolve_process_transition_timeout
fresh_transition-expires s status now configured = ground arith
