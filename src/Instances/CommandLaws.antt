-- ===== src/Instances/CommandLaws.antt =====
-- How a command ends (resources/js/components/dashboard/horizon-instances-actions.tsx).
use horizon_new_dawn.Base.{
  ℕ, String, Bool, true, false, not, ◌||◌, arith, ◌≡◌, refl, inl, inr, Option, none, some,
  Bool-cases,
}
use horizon_new_dawn.Instances.Host.{Host}
use horizon_new_dawn.Instances.Command.{
  Command, Fetch, throws, answers, json, unreadable, Answer, Menu, Awaited, request_horizon_command,
  run, resume, fail, answered, no_token, started, transition_of,
}

-- The request fails: it throws, is aborted before the body is read, or is answered with an error status.
unfoldable pub fails : Fetch → Bool
fails throws = true
fails (answers is_ok (json message)) = not is_ok
fails (answers is_ok (unreadable aborted)) = aborted || not is_ok

-- The answer is there, with a status that is not an error's.
abbrev is_accepted : Option Answer → Bool
is_accepted none = false
is_accepted (some answer) = answer.is_ok

is_accepted-request_horizon_command :
    (fetch : Fetch) → fails fetch ≡ true → is_accepted (request_horizon_command fetch) ≡ false
unfolding fails request_horizon_command
is_accepted-request_horizon_command throws bad = refl
is_accepted-request_horizon_command (answers true (json message)) bad = ground arith
is_accepted-request_horizon_command (answers false (json message)) bad = refl
is_accepted-request_horizon_command (answers is_ok (unreadable true)) bad = refl
is_accepted-request_horizon_command (answers true (unreadable false)) bad = ground arith
is_accepted-request_horizon_command (answers false (unreadable false)) bad = refl

module _ {S : Type 0} (h : Host S) where
  abbrev pub Idle : Menu S → Type 0
  Idle menu = (menu.working ≡ none) × (menu.awaited ≡ none)

  Undone : Menu S → S → Type 0
  Undone after before = h.Same after.host before × Idle after

  -- From the answer on: the transition with the request's token is taken back.
  answered-Undone :
      (answer : Option Answer) (menu : Menu S) (before : S) (request : Awaited)
      → is_accepted answer ≡ false
      → h.Same (h.on_transition_failure request.token menu.host) before
      → Undone (answered h answer request menu) before
  unfolding fail Undone
  answered-Undone none menu before request bad same = (same, (refl, refl))
  answered-Undone (some a) menu before request bad same = rw bad (same, (refl, refl))

  started-Undone :
      (action : Command) (fallback : String) (fetch : Fetch) (menu : Menu S) (result : S × Option ℕ)
      → Idle menu
      → fails fetch ≡ true
      → (result.1 ≡ none → result.0 ≡ menu.host)
      → ((token : ℕ)
          → result.1 ≡ some token
          → h.Same (h.on_transition_failure token result.0) menu.host)
      → Undone (resume h fetch (started h action fallback menu result)) menu.host
  unfolding resume Undone
  started-Undone action fallback fetch menu (s, none) (idle, free) bad refused undone =
      rw free (rw (refused refl) (h.same_refl menu.host), (idle, refl))
  started-Undone action fallback fetch menu (s, some token) idle bad refused undone =
      answered-Undone (request_horizon_command fetch)
        (started h action fallback menu (s, some token)) menu.host
        (record { token = token; fallback = fallback })
        (is_accepted-request_horizon_command fetch bad) (undone token refl)

  -- From an idle menu, if the request fails (it throws, is aborted before its body is read, or is answered with
  -- an error status) and nothing happens between the start of the command and the end of its request, the
  -- transitions are afterwards the same for the user as before and the menu is idle again, also where the page
  -- has no token or the host refuses the transition.
  pub command_leaves_no_trace :
      (action : Command) (fallback : String) (csrf_token : Option String) (now : ℕ) (fetch : Fetch)
      (menu : Menu S)
      → Idle menu
      → fails fetch ≡ true
      → let after = resume h fetch (run h action fallback csrf_token now menu) in
        h.Same after.host menu.host × Idle after
  unfolding run resume Undone
  command_leaves_no_trace action fallback csrf_token now fetch menu idle bad =
      elim (Bool-cases (no_token csrf_token)) [
        | inl missing ↦ rw (missing, idle.1) (h.same_refl menu.host, (idle.0, refl))
        | inr present ↦ rw present (
            started-Undone action fallback fetch menu
              (h.on_transition (transition_of action) now menu.host) idle bad
              (h.refused (transition_of action) now menu.host)
              (λ token given. h.undone (transition_of action) now menu.host given))
      ]
