-- ===== src/Theme/Persistence.antt =====
-- What the provider of resources/js/hooks/use-color-scheme.tsx keeps: the page shows the resolved
-- scheme, and the next load finds the scheme.
use horizon_new_dawn.Base.{
  Bool, true, false, ◌≡◌, refl, sym, ap, ◌∙◌, inl, inr, Option, none, some, List, [], ◌∷◌, arith,
  string_eq, ◌&&◌, Bool-cases, if◌then◌else◌,
}
use horizon_new_dawn.Theme.Scheme.{
  ResolvedColorScheme, dark, light, ColorScheme, system, chosen, same_scheme, scheme_name,
  next_scheme,
}
use horizon_new_dawn.Theme.Provider.{
  Storage, unavailable, read_only, writable, read_scheme, stored_scheme, store_scheme,
  system_scheme, Page, apply_scheme, resolve, Provider, run_effect, mount, Event, preference_change,
  cycle, set_scheme, update, unchanged, step, run, same_resolved,
}

read_scheme-scheme_name : (scheme : ColorScheme) → read_scheme (some (scheme_name scheme)) ≡ scheme
unfolding string_eq
read_scheme-scheme_name system = refl
read_scheme-scheme_name (chosen dark) = refl
read_scheme-scheme_name (chosen light) = refl

abbrev pub Kept : Storage → ColorScheme → Type 0
Kept unavailable scheme = Unit
Kept (read_only value) scheme = Unit
Kept (writable value) scheme = read_scheme value ≡ scheme

-- The page of each scheme, with what the user prefers for the system.
abbrev pub page_of : ColorScheme → ResolvedColorScheme → Page
page_of (chosen dark) preference = record { dark_class = true; color_scheme = dark }
page_of (chosen light) preference = record { dark_class = false; color_scheme = light }
page_of system dark = record { dark_class = true; color_scheme = dark }
page_of system light = record { dark_class = false; color_scheme = light }

abbrev pub Shown : Provider → Type 0
Shown p = (p.page ≡ page_of p.scheme p.system_preference) × Kept p.storage p.scheme

page_of_lem :
    (scheme : ColorScheme) (preference : ResolvedColorScheme)
    → apply_scheme (resolve scheme preference) ≡ page_of scheme preference
unfolding apply_scheme
page_of_lem (chosen dark) preference = refl
page_of_lem (chosen light) preference = refl
page_of_lem system dark = refl
page_of_lem system light = refl

store_scheme-Kept :
    (scheme : ColorScheme) (storage : Storage) → Kept (store_scheme scheme storage) scheme
unfolding store_scheme
store_scheme-Kept scheme unavailable = tt
store_scheme-Kept scheme (read_only value) = tt
store_scheme-Kept scheme (writable value) = read_scheme-scheme_name scheme

run_effect-Shown : (p : Provider) → Shown (run_effect p)
unfolding run_effect
run_effect-Shown p =
    (page_of_lem p.scheme p.system_preference, store_scheme-Kept p.scheme p.storage)

same_resolved_lem : (a b : ResolvedColorScheme) → same_resolved a b ≡ true → a ≡ b
same_resolved_lem dark dark eq = refl
same_resolved_lem light light eq = refl
same_resolved_lem dark light eq = ground arith
same_resolved_lem light dark eq = ground arith

same_scheme_lem : (a b : ColorScheme) → same_scheme a b ≡ true → a ≡ b
same_scheme_lem system system eq = refl
same_scheme_lem system (chosen b) eq = ground arith
same_scheme_lem (chosen a) system eq = ground arith
same_scheme_lem (chosen dark) (chosen dark) eq = refl
same_scheme_lem (chosen light) (chosen light) eq = refl
same_scheme_lem (chosen dark) (chosen light) eq = ground arith
same_scheme_lem (chosen light) (chosen dark) eq = ground arith

both : (a b : Bool) → (a && b) ≡ true → (a ≡ true) × (b ≡ true)
both true b eq = (refl, eq)
both false b eq = ground arith

set_scheme_rests :
    (p : Provider) (o : Option ColorScheme)
    → ((set_scheme p o).page ≡ p.page) × ((set_scheme p o).storage ≡ p.storage)
set_scheme_rests p none = (refl, refl)
set_scheme_rests p (some scheme) = (refl, refl)

update_rests :
    (e : Event) (p : Provider) → ((update e p).page ≡ p.page) × ((update e p).storage ≡ p.storage)
unfolding update
update_rests (preference_change matches) p = (refl, refl)
update_rests cycle p = set_scheme_rests p (next_scheme p.scheme)

-- Without the effect the page and the storage still fit where the effect's dependencies are the same.
Shown-unchanged :
    (p q : Provider)
    → (q.page ≡ p.page) × (q.storage ≡ p.storage)
    → unchanged p q ≡ true
    → Shown p
    → Shown q
Shown-unchanged p q (page, storage) eq (shown, kept) =
    let (resolved, scheme) = both _ _ eq in
    (
      page
          ∙ shown
          ∙ sym (page_of_lem p.scheme p.system_preference)
          ∙ ap apply_scheme (same_resolved_lem _ _ resolved)
          ∙ page_of_lem q.scheme q.system_preference,
      rw storage (rw (sym (same_scheme_lem _ _ scheme)) kept),
    )

step-Shown : (e : Event) (p : Provider) → Shown p → Shown (step e p)
unfolding step
step-Shown e p shown = elim (Bool-cases (unchanged p (update e p))) [
  | inl same ↦ rw same (Shown-unchanged p (update e p) (update_rests e p) same shown)
  | inr changed ↦ rw changed (run_effect-Shown (update e p))
]

run-Shown-from : (es : List Event) (p : Provider) → Shown p → Shown (run es p)
unfolding run
run-Shown-from [] p shown = shown
run-Shown-from (e ∷ es) p shown = run-Shown-from es (step e p) (step-Shown e p shown)

-- What the user prefers for the system after the events, from what was preferred before.
unfoldable pub preferred : Bool → List Event → ResolvedColorScheme
preferred matches [] = if matches then dark else light
preferred matches (preference_change changed ∷ es) = preferred changed es
preferred matches (cycle ∷ es) = preferred matches es

step-preference :
    (e : Event) (p : Provider) → (step e p).system_preference ≡ (update e p).system_preference
unfolding step run_effect
step-preference e p = elim (Bool-cases (unchanged p (update e p))) [
  | inl same ↦ rw same refl
  | inr changed ↦ rw changed refl
]

set_scheme_preference :
    (p : Provider) (o : Option ColorScheme)
    → (set_scheme p o).system_preference ≡ p.system_preference
set_scheme_preference p none = refl
set_scheme_preference p (some scheme) = refl

run-preference :
    (es : List Event) (matches : Bool) (p : Provider)
    → p.system_preference ≡ (if matches then dark else light)
    → (run es p).system_preference ≡ preferred matches es
unfolding run preferred update
run-preference [] matches p h = h
run-preference (preference_change changed ∷ es) matches p h =
    run-preference es changed (step (preference_change changed) p)
      (step-preference (preference_change changed) p)
run-preference (cycle ∷ es) matches p h =
    run-preference es matches (step cycle p)
      (step-preference cycle p ∙ set_scheme_preference p (next_scheme p.scheme) ∙ h)

-- The page and the storage after the events of a load.
abbrev pub ShownAfter : Bool → List Event → Provider → Type 0
ShownAfter matches es p =
    (p.page ≡ page_of p.scheme (preferred matches es)) × Kept p.storage p.scheme

-- Whatever the storage holds and whichever preference changes and cycles follow the load, the page has the class
-- and the colour scheme of dark exactly if the scheme is dark, or is the system's and the latest preference is
-- dark, those of light otherwise, and a storage that takes writes holds a value that is read back as the scheme.
pub run-Shown :
    (es : List Event) (storage : Storage) (matches : Bool) (page : Page)
    → ShownAfter matches es (run es (mount storage matches page))
unfolding mount run_effect
run-Shown es storage matches page =
    let rendered : Provider = record {
      scheme = stored_scheme storage;
      system_preference = system_scheme matches;
      storage = storage;
      page = page;
    } in
    let loaded = run_effect rendered in
    let (shown, kept) = run-Shown-from es loaded (run_effect-Shown rendered) in
    (shown ∙ ap (page_of (run es loaded).scheme) (run-preference es matches loaded refl), kept)

step-scheme : (e : Event) (p : Provider) → (step e p).scheme ≡ (update e p).scheme
unfolding step run_effect
step-scheme e p = elim (Bool-cases (unchanged p (update e p))) [
  | inl same ↦ rw same refl
  | inr changed ↦ rw changed refl
]

turn : ColorScheme → ColorScheme
turn system = chosen dark
turn (chosen dark) = chosen light
turn (chosen light) = system

next-turn : (scheme : ColorScheme) → next_scheme scheme ≡ some (turn scheme)
unfolding turn next_scheme
next-turn system = refl
next-turn (chosen dark) = refl
next-turn (chosen light) = refl

cycle-turn : (p : Provider) → (step cycle p).scheme ≡ turn p.scheme
unfolding update
cycle-turn p = step-scheme cycle p ∙ ap (λ o. (set_scheme p o).scheme) (next-turn p.scheme)

turn_thrice : (scheme : ColorScheme) → turn (turn (turn scheme)) ≡ scheme
unfolding turn
turn_thrice system = refl
turn_thrice (chosen dark) = refl
turn_thrice (chosen light) = refl

-- Three cycles lead back to the scheme, whatever it is.
pub cycle_thrice : (p : Provider) → (step cycle (step cycle (step cycle p))).scheme ≡ p.scheme
cycle_thrice p =
    rw (cycle-turn (step cycle (step cycle p)))
      (rw (cycle-turn (step cycle p)) (rw (cycle-turn p) (turn_thrice p.scheme)))
