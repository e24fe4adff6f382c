-- ===== src/Requests/Coordination.antt =====
-- resources/js/lib/inertia-request-coordination.ts. A request's cancel function is a number. The
-- module's set is a list in insertion order. `calls` lists the cancel functions called, in order.
use horizon_new_dawn.Base.{
  ℕ, Bool, true, false, not, ◌&&◌, ◌||◌, Option, none, some, List, [], ◌∷◌, ◌++◌, if◌then◌else◌,
  ◌==◌, nat_eq, contains, remove,
}

pub data Method : Type 0 where
  get post put patch delete : Method

-- The fields of Inertia's `VisitOptions` that are read. `none` is `undefined`; for `preserve_url`
-- the outer `none` says that the object lacks the key.
pub record VisitOptions : Type 0 where
  pub is_async : Option Bool
  pub method : Option Method
  pub prefetch : Option Bool
  pub has_component : Bool
  pub preserve_url : Option (Option Bool)
  pub poll : Option Bool

abbrev pub is_true : Option Bool → Bool
is_true (some b) = b
is_true none = false

abbrev pub is_get : Option Method → Bool
is_get none = true
is_get (some get) = true
is_get (some _) = false

abbrev pub has_key : Option (Option Bool) → Bool
has_key none = false
has_key (some _) = true

unfoldable pub is_background_get : VisitOptions → Bool
is_background_get o =
    is_true o.is_async && is_get o.method && not (is_true o.prefetch) && not o.has_component

-- The options that `backgroundVisitOptions` resolves, before it wraps a poll's callbacks.
unfoldable pub resolved : VisitOptions → VisitOptions
unfolding is_background_get
resolved o =
    if not (is_background_get o) || has_key o.preserve_url
    then o
    else record o { preserve_url = some (some true) }

-- Whether the callbacks are wrapped, that is, whether the request is registered.
unfoldable pub is_tracked : VisitOptions → Bool
is_tracked o = is_true o.poll

pub record Registry : Type 0 where
  -- `activePollRequests`
  pub active : List ℕ
  pub calls : List ℕ

abbrev pub empty_registry : Registry
empty_registry = record { active = []; calls = [] }

-- `Set.prototype.add`
unfoldable pub add : ℕ → List ℕ → List ℕ
add x xs = if contains xs x then xs else xs ++ x ∷ []

-- The wrapped `onCancelToken`: the request's `cancelRequest` is the result's second part.
unfoldable pub on_cancel_token : Registry → ℕ → Registry × Option ℕ
unfolding add
on_cancel_token r cancel = (record r { active = add cancel r.active }, some cancel)

-- The wrapped `onFinish`, with the request's `cancelRequest`.
unfoldable pub on_finish : Registry → Option ℕ → Registry × Option ℕ
on_finish r none = (r, none)
on_finish r (some cancel) = (record r { active = remove cancel r.active }, none)

-- The listener of `before`: a visit that is neither a prefetch nor asynchronous.
unfoldable pub on_before : Registry → Bool → Bool → Registry
on_before r prefetch is_async =
    if prefetch || is_async then r else record r { active = []; calls = r.calls ++ r.active }

-- Requests by number, each with its `cancelRequest`.
pub data Event : Type 0 where
  token : ℕ → ℕ → Event
  finish : ℕ → Event
  before : Bool → Bool → Event

pub record World : Type 0 where
  pub registry : Registry
  pub cancel_request : ℕ → Option ℕ

unfoldable pub step : World → Event → World
unfolding on_cancel_token on_finish on_before
step w (token request cancel) =
    let (registry, held) = on_cancel_token w.registry cancel in
    record {
      registry = registry;
      cancel_request = λ n. if n == request then held else w.cancel_request n;
    }
step w (finish request) =
    let (registry, held) = on_finish w.registry (w.cancel_request request) in
    record {
      registry = registry;
      cancel_request = λ n. if n == request then held else w.cancel_request n;
    }
step w (before prefetch is_async) = record w { registry = on_before w.registry prefetch is_async }

unfoldable pub run : World → List Event → World
run w [] = w
run w (e ∷ es) = run (step w e) es
