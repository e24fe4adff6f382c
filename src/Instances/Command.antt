-- ===== src/Instances/Command.antt =====
-- resources/js/components/dashboard/horizon-instances-actions.tsx: a command's request, and the menus of one
-- instance and of one supervisor, which differ in their host and their messages only. A handler that awaits
-- is two functions: up to the `await`, and from the answer on.
use horizon_new_dawn.Base.{
  ℕ, String, Bool, true, false, Option, none, some, List, ◌∷◌, if◌then◌else◌, ◌==◌, string_eq,
}
use horizon_new_dawn.Transitions.Model.{HorizonTransitionStatus, pausing, continuing}
use horizon_new_dawn.Instances.Host.{Host}

-- `HorizonCommand` without "terminate".
pub data Command : Type 0 where
  continue pause : Command

-- What reading the body as JSON yields: the message if there is a text, or an error, with the signal
-- aborted or not.
pub data Body : Type 0 where
  json : Option String → Body
  unreadable : Bool → Body

-- What `fetch` does: it throws, also when the request is aborted, or answers.
pub data Fetch : Type 0 where
  throws : Fetch
  answers : Bool → Body → Fetch

-- `response.ok` and the message of the payload.
pub record Answer : Type 0 where
  pub is_ok : Bool
  pub message : Option String

-- `requestHorizonCommand`: none is a rejected promise.
unfoldable pub request_horizon_command : Fetch → Option Answer
request_horizon_command throws = none
request_horizon_command (answers is_ok (json message)) =
    some (record { is_ok = is_ok; message = message })
request_horizon_command (answers is_ok (unreadable true)) = none
request_horizon_command (answers is_ok (unreadable false)) =
    some (record { is_ok = is_ok; message = none })

pub data ToastType : Type 0 where
  success error : ToastType

pub record Toast : Type 0 where
  pub title : String
  pub type : ToastType

-- The awaited request: the token and the fallback of its closure.
pub record Awaited : Type 0 where
  pub token : ℕ
  pub fallback : String

-- The menu with its host; the latest toast is first.
pub record Menu (S : Type 0) : Type 0 where
  pub host : S
  pub working : Option Command
  pub awaited : Option Awaited
  pub toasts : List Toast

-- `!csrfToken`
abbrev pub no_token : Option String → Bool
no_token none = true
no_token (some token) = token == ""

abbrev pub transition_of : Command → HorizonTransitionStatus
transition_of pause = pausing
transition_of continue = continuing

abbrev pub message_or : Option String → String → String
message_or none fallback = fallback
message_or (some message) fallback = message

module _ {S : Type 0} (h : Host S) where
  -- What follows `onTransition`.
  abbrev pub started : Command → String → Menu S → S × Option ℕ → Menu S
  started action fallback menu (s, none) = record menu { host = s }
  started action fallback menu (s, some token) = record menu {
    host = s;
    working = some action;
    awaited = some (record { token = token; fallback = fallback });
  }

  -- `run` up to the `await`, with the page's CSRF token and the clock.
  unfoldable pub run : Command → String → Option String → ℕ → Menu S → Menu S
  run action fallback csrf_token now menu =
      let result =
        started action fallback menu (h.on_transition (transition_of action) now menu.host) in
      if no_token csrf_token
      then record menu { toasts = record { title = fallback; type = error } ∷ menu.toasts }
      else result

  -- The failure branches: the toast, `onTransitionFailure` and `setWorking(null)`.
  unfoldable pub fail : String → Awaited → Menu S → Menu S
  fail title request menu = record menu {
    host = h.on_transition_failure request.token menu.host;
    working = none;
    awaited = none;
    toasts = record { title = title; type = error } ∷ menu.toasts;
  }

  unfoldable pub succeed : String → Menu S → Menu S
  succeed title menu = record menu {
    working = none;
    awaited = none;
    toasts = record { title = title; type = success } ∷ menu.toasts;
  }

  abbrev pub answered : Option Answer → Awaited → Menu S → Menu S
  answered none request menu = fail request.fallback request menu
  answered (some answer) request menu =
      let title = message_or answer.message request.fallback in
      if answer.is_ok then succeed title menu else fail title request menu

  abbrev pub continued : Fetch → Option Awaited → Menu S → Menu S
  continued fetch none menu = menu
  continued fetch (some request) menu = answered (request_horizon_command fetch) request menu

  -- `run` from the answer on.
  unfoldable pub resume : Fetch → Menu S → Menu S
  unfolding request_horizon_command fail succeed
  resume fetch menu = continued fetch menu.awaited menu
