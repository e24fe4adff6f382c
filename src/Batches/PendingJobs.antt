-- ===== src/Batches/PendingJobs.antt =====
-- `BatchPendingJobsActions` of resources/js/components/batches/batch-actions.tsx, as a machine over the
-- user's actions and the callbacks of its visits. An item or a button that is not rendered, or is disabled,
-- does nothing. The page polls, so the properties of a render may change, also while a dialog is open. (Whether
-- the menu is open is not part of the state.)
use horizon_new_dawn.Base.{
  Bool, true, false, not, ◌&&◌, ◌||◌, ◌≡◌, refl, List, [], ◌∷◌, arith, if◌then◌else◌, All, by_test,
}

pub record Props : Type 0 where
  pub can_cancel : Bool
  pub can_retry : Bool

pub record Actions : Type 0 where
  pub cancel_dialog_open : Bool
  pub retry_dialog_open : Bool
  pub working : Bool

abbrev pub initial : Actions
initial = record { cancel_dialog_open = false; retry_dialog_open = false; working = false }

-- The posts of `retry` and `cancel`.
pub data Request : Type 0 where
  retry_batch cancel_batch : Request

pub data Event : Type 0 where
  select_retry select_cancel close_retry close_cancel confirm_retry confirm_cancel : Event
  started retry_succeeded cancel_succeeded finished : Event
  rendered : Props → Event

unfoldable pub update : Props → Event → Actions → Actions
update p select_retry a = if p.can_retry then record a { retry_dialog_open = true } else a
update p select_cancel a = if p.can_cancel then record a { cancel_dialog_open = true } else a
update p close_retry a = record a { retry_dialog_open = false }
update p close_cancel a = record a { cancel_dialog_open = false }
update p confirm_retry a = a
update p confirm_cancel a = a
update p started a = record a { working = true }
update p retry_succeeded a = record a { retry_dialog_open = false }
update p cancel_succeeded a = record a { cancel_dialog_open = false }
update p finished a = record a { working = false }
update p (rendered p') a = a

-- The buttons of the open dialogs, enabled while no visit is under way.
unfoldable pub requests : Event → Actions → List Request
requests confirm_retry a = if a.retry_dialog_open && not a.working then retry_batch ∷ [] else []
requests confirm_cancel a = if a.cancel_dialog_open && not a.working then cancel_batch ∷ [] else []
requests event a = []

-- The properties from the event on.
abbrev pub next_props : Event → Props → Props
next_props (rendered p') p = p'
next_props event p = p

-- The state after the events.
unfoldable pub run : Props → List Event → Actions → Actions
unfolding update
run p [] a = a
run p (e ∷ es) a = run (next_props e p) es (update p e a)

-- Some render up to the end of the events had properties that pass the test.
unfoldable pub rendered_with : (Props → Bool) → Props → List Event → Bool
rendered_with test p [] = test p
rendered_with test p (e ∷ es) = test p || rendered_with test (next_props e p) es

-- Some render up to there offered what the request asks for.
abbrev pub WasAllowed : Props → List Event → Request → Type 0
WasAllowed p es retry_batch = rendered_with (λ q. q.can_retry) p es ≡ true
WasAllowed p es cancel_batch = rendered_with (λ q. q.can_cancel) p es ≡ true

-- An event opens a dialog only where the properties of its render offer it.
update_opens_retry :
    (p : Props) (e : Event) (a : Actions)
    → (update p e a).retry_dialog_open && not (a.retry_dialog_open || p.can_retry) ≡ false
unfolding update
update_opens_retry p select_retry a = ground arith
update_opens_retry p select_cancel a = ground arith
update_opens_retry p close_retry a = refl
update_opens_retry p close_cancel a = ground arith
update_opens_retry p confirm_retry a = ground arith
update_opens_retry p confirm_cancel a = ground arith
update_opens_retry p started a = ground arith
update_opens_retry p retry_succeeded a = refl
update_opens_retry p cancel_succeeded a = ground arith
update_opens_retry p finished a = ground arith
update_opens_retry p (rendered p') a = ground arith

update_opens_cancel :
    (p : Props) (e : Event) (a : Actions)
    → (update p e a).cancel_dialog_open && not (a.cancel_dialog_open || p.can_cancel) ≡ false
unfolding update
update_opens_cancel p select_retry a = ground arith
update_opens_cancel p select_cancel a = ground arith
update_opens_cancel p close_retry a = ground arith
update_opens_cancel p close_cancel a = refl
update_opens_cancel p confirm_retry a = ground arith
update_opens_cancel p confirm_cancel a = ground arith
update_opens_cancel p started a = ground arith
update_opens_cancel p retry_succeeded a = ground arith
update_opens_cancel p cancel_succeeded a = refl
update_opens_cancel p finished a = ground arith
update_opens_cancel p (rendered p') a = ground arith

earlier :
    (later open_before can rest : Bool)
    → later && not (open_before || can) ≡ false
    → later || rest ≡ true
    → open_before || (can || rest) ≡ true
earlier later open_before can rest opened h = ground arith

open_already : (o test : Bool) → o ≡ true → o || test ≡ true
open_already o test h = ground arith

run_opens_retry :
    (p : Props) (es : List Event) (a : Actions)
    → (run p es a).retry_dialog_open ≡ true
    → a.retry_dialog_open || rendered_with (λ q. q.can_retry) p es ≡ true
unfolding run rendered_with
run_opens_retry p [] a h = open_already a.retry_dialog_open p.can_retry h
run_opens_retry p (e ∷ es) a h =
    earlier (update p e a).retry_dialog_open a.retry_dialog_open p.can_retry
      (rendered_with (λ q. q.can_retry) (next_props e p) es) (update_opens_retry p e a)
      (run_opens_retry (next_props e p) es (update p e a) h)

run_opens_cancel :
    (p : Props) (es : List Event) (a : Actions)
    → (run p es a).cancel_dialog_open ≡ true
    → a.cancel_dialog_open || rendered_with (λ q. q.can_cancel) p es ≡ true
unfolding run rendered_with
run_opens_cancel p [] a h = open_already a.cancel_dialog_open p.can_cancel h
run_opens_cancel p (e ∷ es) a h =
    earlier (update p e a).cancel_dialog_open a.cancel_dialog_open p.can_cancel
      (rendered_with (λ q. q.can_cancel) (next_props e p) es) (update_opens_cancel p e a)
      (run_opens_cancel (next_props e p) es (update p e a) h)

both_on : (a b : Bool) → a && b ≡ true → a ≡ true
both_on a b h = ground arith

-- From closed dialogs, after any clicks, callbacks and renders with other properties, an event sends no request
-- but one that some render up to there offered: a batch is cancelled, or its failed jobs retried, only if the
-- page has shown that it can be.
pub run-WasAllowed :
    (p : Props) (es : List Event) (e : Event)
    → All (WasAllowed p es) (requests e (run p es initial))
unfolding requests
run-WasAllowed p es confirm_retry =
    let a = run p es initial in
    by_test (All (WasAllowed p es)) (a.retry_dialog_open && not a.working)
      (λ sent. (run_opens_retry p es initial (both_on _ _ sent), tt)) (λ held. tt)
run-WasAllowed p es confirm_cancel =
    let a = run p es initial in
    by_test (All (WasAllowed p es)) (a.cancel_dialog_open && not a.working)
      (λ sent. (run_opens_cancel p es initial (both_on _ _ sent), tt)) (λ held. tt)
run-WasAllowed p es select_retry = tt
run-WasAllowed p es select_cancel = tt
run-WasAllowed p es close_retry = tt
run-WasAllowed p es close_cancel = tt
run-WasAllowed p es started = tt
run-WasAllowed p es retry_succeeded = tt
run-WasAllowed p es cancel_succeeded = tt
run-WasAllowed p es finished = tt
run-WasAllowed p es (rendered p') = tt
