-- ===== src/Polling/History.antt =====
-- A poll never drops the pages that the user has loaded, and changes are announced
-- (resources/js/hooks/use-auto-load.ts).
use horizon_new_dawn.Base.{
  ℕ, String, true, false, not, ◌&&◌, ◌||◌, ◌≡◌, refl, sym, inl, inr, ==-cases, Option, none, some,
  List, [], ◌∷◌, ◌++◌, arith, if◌then◌else◌, ◌==◌, option_eq, string_eq, nat_eq, All, contains,
  Distinct,
}
use horizon_new_dawn.Polling.Props.{unique_lem}
use horizon_new_dawn.Polling.AutoLoad.{
  Props, Loader, Event, EntryReloadMode, props, token, finish, next_page, load, loaded, sync_effect,
  poll_request, request_options, on_load_success, shows_new_entries, step, run, is_defined,
  requested, refreshed,
}

-- The events keep the scope and load no new entries.
abbrev pub Stays : String → Event → Type 0
Stays scope (props p) = p.scope ≡ scope
Stays scope (loaded revision) = ⊥
Stays scope _ = Unit

abbrev Browses : String → Loader → Type 0
Browses scope l = (l.browsing_history ≡ true) × (l.scope ≡ scope)

step-Browses :
    (scope : String) (l : Loader) (e : Event)
    → Stays scope e
    → Browses scope l
    → Browses scope (step l e)
unfolding step
step-Browses scope l (props p) s b = ground arith
step-Browses scope l (loaded revision) s b = absurd s
step-Browses scope l (token cancel) s b = b
step-Browses scope l (finish cancel_request) s b = ground arith
step-Browses scope l next_page s b = ground arith
step-Browses scope l (load p) s b = ground arith

run-Browses :
    (scope : String) (es : List Event) (l : Loader)
    → All (Stays scope) es
    → Browses scope l
    → Browses scope (run l es)
unfolding run
run-Browses scope [] l s b = b
run-Browses scope (e ∷ es) l s b =
    run-Browses scope es (step l e) s.1 (step-Browses scope l e s.0 b)

-- Once the user has asked for a next page, and until the scope changes or new entries are loaded, no
-- poll resets the list: an enabled poll merges new entries in front.
pub next_page_kept :
    (l : Loader) (es : List Event) (p : Props)
    → All (Stays l.scope) es
    → ((poll_request p (run (step l next_page) es)).reset ≡ [])
      × ((poll_request p (run (step l next_page) es)).merge_intent_prepend ≡ p.enabled)
unfolding poll_request request_options
next_page_kept l es p stays =
    let start : Browses l.scope (step l next_page) = unfold step in (refl, refl) in
    let (history, _) = run-Browses l.scope es (step l next_page) stays start in ground arith

-- The request for a next page cancels the poll that is under way.
pub next_page_cancels :
    (l : Loader) {cancel : ℕ}
    → l.poll_cancel ≡ some cancel
    → ((step l next_page).cancelled ≡ l.cancelled ++ cancel ∷ [])
      × ((step l next_page).poll_cancel ≡ none)
unfolding step
next_page_cancels l h = ground arith

-- With loading off, in one scope, a revision that differs from the baseline is announced, and stays
-- announced; with loading on, and in a new scope, nothing is announced and the revision becomes the
-- baseline.
pub sync_effect_announces :
    (p : Props) (l : Loader)
    → let l' = sync_effect p l in
      let changed = is_defined p.list_revision && not (p.list_revision == l.baseline_revision) in
      (shows_new_entries p l'
        ≡ (not p.enabled && ((l.scope == p.scope) && (changed || l.has_new_entries))))
      × (l'.baseline_revision ≡ (
          if p.enabled || not (l.scope == p.scope) then p.list_revision else l.baseline_revision))
unfolding sync_effect shows_new_entries
sync_effect_announces p l = ground arith

settled :
    (p : Props) (l : Loader)
    → is_defined p.list_revision ≡ true
    → l.baseline_revision ≡ p.list_revision
    → l.has_new_entries ≡ false
    → shows_new_entries p (sync_effect p l) ≡ false
unfolding sync_effect shows_new_entries
settled p l defined same none_new = elim (==-cases p.list_revision l.baseline_revision) [
  | inl (hit, _) ↦ ground arith
  | inr (_, differ) ↦ absurd (differ (sym same))
]

-- After new entries are loaded, a page with the revision that they brought, a defined one,
-- announces nothing.
pub loaded_is_baseline :
    (l : Loader) (p : Props)
    → is_defined p.list_revision ≡ true
    → shows_new_entries p (sync_effect p (on_load_success p.list_revision l)) ≡ false
unfolding on_load_success
loaded_is_baseline l p defined =
    settled p (on_load_success p.list_revision l) defined (took p.list_revision defined) refl
  where
    took : (r : Option String) → is_defined r ≡ true → refreshed r l.list_revision ≡ r
    took none h = cc
    took (some r) h = refl

-- A request names each prop once: the list itself if entries are wanted, its revision if the page has
-- one, the additional props, and the shared ones if loading is on and they are included.
pub request_options_only :
    (p : Props) (mode : Option EntryReloadMode) (name : String)
    → Distinct (request_options p mode).only
      × (contains (request_options p mode).only name ≡ contains (requested p mode) name)
unfolding request_options
request_options_only p mode name =
    let (once, same) = unique_lem (requested p mode) in (once, same name)
