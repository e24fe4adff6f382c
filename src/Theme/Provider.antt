-- ===== src/Theme/Provider.antt =====
-- resources/js/hooks/use-color-scheme.tsx: the provider as a machine. An event is a state update;
-- the effect runs after it where one of its dependencies changed, and at the mount.
use horizon_new_dawn.Base.{
  String, Bool, true, false, Option, none, some, List, [], ◌∷◌, if◌then◌else◌, ◌==◌, string_eq,
  ◌&&◌,
}
use horizon_new_dawn.Theme.Scheme.{
  ResolvedColorScheme, dark, light, ColorScheme, system, chosen, same_scheme, scheme_name,
  next_scheme,
}

-- `window.localStorage` at the key: both calls throw, or only the write does, or neither.
pub data Storage : Type 0 where
  unavailable : Storage
  read_only : Option String → Storage
  writable : Option String → Storage

abbrev pub read_scheme : Option String → ColorScheme
read_scheme none = system
read_scheme (some value) =
    if value == "dark" then chosen dark else if value == "light" then chosen light else system

unfoldable pub stored_scheme : Storage → ColorScheme
stored_scheme unavailable = system
stored_scheme (read_only value) = read_scheme value
stored_scheme (writable value) = read_scheme value

unfoldable pub store_scheme : ColorScheme → Storage → Storage
store_scheme scheme unavailable = unavailable
store_scheme scheme (read_only value) = read_only value
store_scheme scheme (writable value) = writable (some (scheme_name scheme))

abbrev pub system_scheme : Bool → ResolvedColorScheme
system_scheme matches = if matches then dark else light

-- The class `dark` and the style `colorScheme` of the document's element.
pub record Page : Type 0 where
  pub dark_class : Bool
  pub color_scheme : ResolvedColorScheme

abbrev pub is_dark : ResolvedColorScheme → Bool
is_dark dark = true
is_dark light = false

unfoldable pub apply_scheme : ResolvedColorScheme → Page
apply_scheme scheme = record { dark_class = is_dark scheme; color_scheme = scheme }

pub record Provider : Type 0 where
  pub scheme : ColorScheme
  pub system_preference : ResolvedColorScheme
  pub storage : Storage
  pub page : Page

abbrev pub resolve : ColorScheme → ResolvedColorScheme → ResolvedColorScheme
resolve system preference = preference
resolve (chosen scheme) preference = scheme

abbrev pub resolved_scheme : Provider → ResolvedColorScheme
resolved_scheme p = resolve p.scheme p.system_preference

-- The second effect.
unfoldable pub run_effect : Provider → Provider
unfolding store_scheme apply_scheme
run_effect p = record {
  scheme = p.scheme;
  system_preference = p.system_preference;
  storage = store_scheme p.scheme p.storage;
  page = apply_scheme (resolved_scheme p);
}

unfoldable pub mount : Storage → Bool → Page → Provider
unfolding stored_scheme run_effect
mount storage matches page = run_effect (record {
  scheme = stored_scheme storage;
  system_preference = system_scheme matches;
  storage = storage;
  page = page;
})

pub data Event : Type 0 where
  preference_change : Bool → Event
  cycle : Event

-- `undefined`, out of the list's range, leaves the scheme: it never arises.
abbrev pub set_scheme : Provider → Option ColorScheme → Provider
set_scheme p none = p
set_scheme p (some scheme) = record {
  scheme = scheme;
  system_preference = p.system_preference;
  storage = p.storage;
  page = p.page;
}

unfoldable pub update : Event → Provider → Provider
unfolding next_scheme
update (preference_change matches) p = record {
  scheme = p.scheme;
  system_preference = system_scheme matches;
  storage = p.storage;
  page = p.page;
}
update cycle p = set_scheme p (next_scheme p.scheme)

abbrev pub same_resolved : ResolvedColorScheme → ResolvedColorScheme → Bool
same_resolved dark dark = true
same_resolved light light = true
same_resolved a b = false

abbrev pub unchanged : Provider → Provider → Bool
unchanged p q =
    same_resolved (resolved_scheme p) (resolved_scheme q) && same_scheme p.scheme q.scheme

unfoldable pub step : Event → Provider → Provider
unfolding update run_effect
step e p = let q = update e p in if unchanged p q then q else run_effect q

unfoldable pub run : List Event → Provider → Provider
unfolding step
run [] p = p
run (e ∷ es) p = run es (step e p)
