-- ===== src/Jobs/CatalogLaws.antt =====
-- At most one catalogue request at a time, and none while the catalogue is fresh
-- (resources/js/hooks/use-job-filter-catalog-refresh.ts).
use horizon_new_dawn.Base.{
  ℕ, ◌+◌, ◌≤◌, ◌<◌, max, true, false, ◌≡◌, refl, ◌∙◌, ◌⊎◌, none, some, List, [], ◌∷◌, arith,
  if◌then◌else◌, option_eq, nat_eq, All,
}
use horizon_new_dawn.Jobs.Catalog.{
  Refresh, Event, catalog_arrives, intent, token, succeed, finish, leave, step, run, refresh,
}

abbrev pub outstanding : Refresh → ℕ
outstanding r = if r.in_flight then 1 else 0

step-outstanding :
    (interval : ℕ) (e : Event) (now : ℕ) (r : Refresh)
    → r.reloads ≡ r.finished + outstanding r
    → let r' = step interval e now r in r'.reloads ≡ r'.finished + outstanding r'
unfolding step
step-outstanding interval (catalog_arrives none) now r h = h
step-outstanding interval (catalog_arrives (some c)) now r h = ground arith
step-outstanding interval intent now r h = ground arith
step-outstanding interval (token cancel) now r h = ground arith
step-outstanding interval succeed now r h = ground arith
step-outstanding interval finish now r h = ground arith
step-outstanding interval leave now r h = h

-- Where the requests made are those finished and, while the flag is up, one more, they are so
-- after any events.
pub run-outstanding :
    (interval : ℕ) (es : List (ℕ × Event)) (r : Refresh)
    → r.reloads ≡ r.finished + outstanding r
    → let r' = run interval es r in r'.reloads ≡ r'.finished + outstanding r'
unfolding run
run-outstanding interval [] r h = h
run-outstanding interval ((now, e) ∷ es) r h =
    run-outstanding interval es (step interval e now r) (step-outstanding interval e now r h)

abbrev Fresh : ℕ → Refresh → Type 0
Fresh t r = (t ≤ r.refreshed_at) × (0 < r.refreshed_at)

abbrev pub Within : ℕ → ℕ → ℕ × Event → Type 0
Within interval t e = (t ≤ e.0) × (e.0 < t + max interval 250)

step-Fresh :
    (interval t : ℕ) (e : Event) (now : ℕ) (r : Refresh)
    → 0 < t
    → (t ≤ now) × (now < t + max interval 250)
    → Fresh t r
    → Fresh t (step interval e now r) × ((step interval e now r).reloads ≡ r.reloads)
unfolding step
step-Fresh interval t (catalog_arrives none) now r p w f = (f, refl)
step-Fresh interval t (catalog_arrives (some c)) now r p w f = ground arith
step-Fresh interval t intent now r p w f = ground arith
step-Fresh interval t (token cancel) now r p w f = ground arith
step-Fresh interval t succeed now r p w f = ground arith
step-Fresh interval t finish now r p w f = ground arith
step-Fresh interval t leave now r p w f = (f, refl)

run-Fresh :
    (interval t : ℕ) (es : List (ℕ × Event)) (r : Refresh)
    → 0 < t
    → All (Within interval t) es
    → Fresh t r
    → (run interval es r).reloads ≡ r.reloads
unfolding run
run-Fresh interval t [] r p w f = refl
run-Fresh interval t ((now, e) ∷ es) r p w f =
    let (f', kept) = step-Fresh interval t e now r p w.0 f in
    run-Fresh interval t es (step interval e now r) p w.1 f' ∙ kept

-- Once the catalogue was refreshed at `t`, no event before the freshness window of `t` has passed
-- makes a request.
pub fresh_no_reload :
    (interval t : ℕ) (es : List (ℕ × Event)) (r : Refresh)
    → 0 < t
    → r.refreshed_at ≡ t
    → All (Within interval t) es
    → (run interval es r).reloads ≡ r.reloads
fresh_no_reload interval t es r p h w = run-Fresh interval t es r p w (ground arith)

-- Outside the window, or with no catalogue yet, and with no request under way, an intent makes one.
pub stale_reloads :
    (interval now : ℕ) (r : Refresh)
    → r.in_flight ≡ false
    → (r.refreshed_at ≡ 0) ⊎ (r.refreshed_at + max interval 250 ≤ now)
    → ((refresh interval now r).reloads ≡ r.reloads + 1)
      × ((refresh interval now r).in_flight ≡ true)
unfolding refresh
stale_reloads interval now r idle old = ground arith
