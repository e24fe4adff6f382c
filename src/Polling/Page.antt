-- ===== src/Polling/Page.antt =====
-- resources/js/hooks/use-dashboard-refresh.ts.
use horizon_new_dawn.Base.{
  ℕ, suc, String, Bool, true, false, not, ◌&&◌, ◌≡◌, refl, List, [], ◌∷◌, ◌++◌, arith, ltb,
  if◌then◌else◌, contains, contains-append, string_eq, Distinct, ◌∙◌, ◌||◌, ◌+◌,
}
use horizon_new_dawn.Polling.Props.{unique, unique_lem, shared_props}

abbrev pub dashboard_props : List String
dashboard_props = "summary" ∷ "workload" ∷ "supervisors" ∷ []

unfoldable pub request_only : List String → Bool → List String
request_only props include_shared_props =
    unique (props ++ (if include_shared_props then shared_props else []))

-- What the effect does: the poll runs or not, and a request is made at once or not. The new value
-- of `wasPollingRef` is the first part.
pub record Effect : Type 0 where
  pub polls : Bool
  pub reloads : Bool

unfoldable pub page_effect : ℕ → Bool → Bool → Effect
page_effect interval enabled was_polling =
    let should_poll = enabled && ltb 0 interval in
    record { polls = should_poll; reloads = should_poll && not was_polling }

-- The effect over the values that `interval` and `enabled` take, with the number of requests.
unfoldable pub run_page : List (ℕ × Bool) → Bool → ℕ → Bool × ℕ
run_page [] was_polling reloads = (was_polling, reloads)
run_page ((interval, enabled) ∷ rest) was_polling reloads =
    let effect = page_effect interval enabled was_polling in
    run_page rest effect.polls (if effect.reloads then suc reloads else reloads)

-- A dashboard request names each prop once: the page's and, if they are included, the shared ones.
pub request_only_lem :
    (props : List String) (include_shared_props : Bool) (name : String)
    → Distinct (request_only props include_shared_props)
      × (contains (request_only props include_shared_props) name
          ≡ contains props name || (include_shared_props && contains shared_props name))
unfolding request_only
request_only_lem props include_shared_props name =
    let all = props ++ (if include_shared_props then shared_props else []) in
    let (once, same) = unique_lem all in
    (once, same name ∙ contains-append props _ name ∙ shared include_shared_props)
  where
    shared :
        (b : Bool)
        → contains props name || contains (if b then shared_props else []) name
          ≡ contains props name || (b && contains shared_props name)
    shared true = refl
    shared false = unfold contains in refl

-- How often polling is switched on, after being off.
unfoldable pub switched_on : List (ℕ × Bool) → Bool → ℕ
switched_on [] before = 0
switched_on ((interval, enabled) ∷ rest) before =
    let on = enabled && ltb 0 interval in
    if on && not before then suc (switched_on rest on) else switched_on rest on

-- Over any changes of the interval and of the switch, a request is made at once exactly when polling
-- goes from off to on.
pub run_page_reloads :
    (values : List (ℕ × Bool)) (was_polling : Bool) (reloads : ℕ)
    → (run_page values was_polling reloads).1 ≡ reloads + switched_on values was_polling
unfolding run_page page_effect switched_on
run_page_reloads [] was_polling reloads = omega arith
run_page_reloads ((interval, enabled) ∷ rest) was_polling reloads =
    let on = enabled && ltb 0 interval in
    ground
      (arith, run_page_reloads rest on (if on && not was_polling then suc reloads else reloads))
