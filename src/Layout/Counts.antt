-- ===== src/Layout/Counts.antt =====
-- resources/js/layouts/horizon-layout.tsx: the stored navigation counts, the stored preference for loading
-- new entries, and the effects of the layout. `JSON.parse`, which may throw, and `JSON.stringify` are parameters.
use horizon_new_dawn.Base.{
  ℕ, ◌+◌, ◌*◌, String, ◌<>◌, Bool, true, false, Option, none, some, List, [], ◌∷◌, if◌then◌else◌,
  ◌==◌, string_eq, option_eq, all,
}
use horizon_new_dawn.Base.Dict.{Dict, lookup, insert, erase}
use horizon_new_dawn.Base.Int.{ℤ, pos, leb_ℤ}
use horizon_new_dawn.Json.{Json, number, null, object, Fields, empty, field}

-- `window.localStorage`: reads and writes may throw.
pub record Storage : Type 0 where
  pub is_readable : Bool
  pub is_writable : Bool
  pub entries : Dict String String

abbrev pub navigation_counts_cache_ttl : ℕ
navigation_counts_cache_ttl = 5 * 60 * 1000

abbrev pub navigation_count_keys : List String
navigation_count_keys =
    "instances" ∷ "monitoring" ∷ "metrics" ∷ "queues" ∷ "batches" ∷ "pending" ∷ "completed"
    ∷ "silenced" ∷ "failed" ∷ []

unfoldable pub navigation_counts_storage_key : String → String
navigation_counts_storage_key base_url = "horizonNavigationCounts" <> (":" <> base_url)

-- A property of a value: none is `undefined`. (The properties of an array have none of the names in use.)
unfoldable pub property_of : String → Fields → Option Json
property_of name empty = none
property_of name (field key value rest) =
    let later = property_of name rest in if key == name then some value else later

unfoldable pub property : String → Json → Option Json
unfolding property_of
property name (object fields) = property_of name fields
property name value = none

abbrev pub is_count : Option Json → Bool
is_count (some (number n)) = true
is_count (some null) = true
is_count value = false

-- The test of `counts` in `isStoredNavigationCounts`.
unfoldable pub has_counts : Json → Bool
unfolding property all
has_counts counts = all (λ key. is_count (property key counts)) navigation_count_keys

-- `isStoredNavigationCounts`: the two fields that it accepts.
abbrev pub accepted : Option Json → Option Json → Option (Json × ℤ)
accepted (some counts) (some (number expires_at)) =
    if has_counts counts then some (counts, expires_at) else none
accepted counts expires_at = none

unfoldable pub stored_navigation_counts_of : Json → Option (Json × ℤ)
unfolding property has_counts
stored_navigation_counts_of value = accepted (property "counts" value) (property "expiresAt" value)

-- `storedNavigationCounts`, from the storage's answer on: the new storage, and the counts. A removal that
-- throws is caught.
abbrev pub removed : String → Storage → Storage
removed key s = if s.is_writable then record s { entries = erase key s.entries } else s

abbrev pub checked : String → ℕ → Storage → Option (Json × ℤ) → Storage × Option Json
checked key now s none = (removed key s, none)
checked key now s (some (counts, expires_at)) =
    if leb_ℤ expires_at (pos now) then (removed key s, none) else (s, some counts)

abbrev pub read_entry : String → ℕ → Storage → Option Json → Storage × Option Json
read_entry key now s none = (s, none)
read_entry key now s (some value) = checked key now s (stored_navigation_counts_of value)

-- What `JSON.parse` reads in the stored text: none if there is no text, or if it throws.
abbrev pub parsed : (String → Option Json) → Option String → Option Json
parsed parse none = none
parsed parse (some text) = parse text

-- The value that `storeNavigationCounts` stores.
abbrev pub cache_entry : Json → ℕ → Json
cache_entry counts now = object (
    field "counts" counts
      (field "expiresAt" (number (pos (now + navigation_counts_cache_ttl))) empty))

module _ (parse : String → Option Json) where
  unfoldable pub stored_navigation_counts : String → ℕ → Storage → Storage × Option Json
  unfolding stored_navigation_counts_of navigation_counts_storage_key
  stored_navigation_counts base_url now s =
      let key = navigation_counts_storage_key base_url in
      if s.is_readable
      then read_entry key now s (parsed parse (lookup key s.entries))
      else (s, none)

  -- The first value of the state: the stored counts are read only if the page has none.
  abbrev pub first_counts : String → Option Json → ℕ → Storage → Storage × Option Json
  first_counts base_url none now s = stored_navigation_counts base_url now s
  first_counts base_url (some counts) now s = (s, some counts)

unfoldable pub store_navigation_counts : (Json → String) → String → Json → ℕ → Storage → Storage
unfolding navigation_counts_storage_key
store_navigation_counts stringify base_url counts now s =
    if s.is_writable
    then record s {
      entries =
          insert (navigation_counts_storage_key base_url) (stringify (cache_entry counts now))
            s.entries;
    }
    else s

abbrev pub auto_load_storage_key : String
auto_load_storage_key = "horizonAutoLoadsNewEntries"

unfoldable pub stored_auto_load_preference : Storage → Bool
stored_auto_load_preference s =
    if s.is_readable then lookup auto_load_storage_key s.entries == some "1" else false

pub data Toast : Type 0 where
  success error : String → Toast

pub record Layout : Type 0 where
  pub auto_load : Bool
  pub resolved_navigation_counts : Option Json
  pub storage : Storage
  pub toasts : List Toast

-- The effect on `navigationCounts`.
unfoldable pub counts_effect : (Json → String) → String → Option Json → ℕ → Layout → Layout
unfolding store_navigation_counts
counts_effect stringify base_url none now l = l
counts_effect stringify base_url (some counts) now l = record l {
  resolved_navigation_counts = some counts;
  storage = store_navigation_counts stringify base_url counts now l.storage;
}

-- The effect on the flashed messages: an empty one is not shown.
abbrev pub shown_toast : (String → Toast) → Option String → List Toast → List Toast
shown_toast toast none toasts = toasts
shown_toast toast (some title) toasts = if title == "" then toasts else toast title ∷ toasts

unfoldable pub flash_effect : Option String → Option String → Layout → Layout
flash_effect flash_success flash_error l = record l {
  toasts = shown_toast error flash_error (shown_toast success flash_success l.toasts);
}

-- The first render, with the effects of its props.
unfoldable pub mount :
    (String → Option Json) → (Json → String) → String → Option Json → ℕ → Storage → Layout
unfolding stored_navigation_counts stored_auto_load_preference counts_effect
mount parse stringify base_url navigation_counts now s =
    let first = first_counts parse base_url navigation_counts now s in
    counts_effect stringify base_url navigation_counts now (record {
      auto_load = stored_auto_load_preference s;
      resolved_navigation_counts = first.1;
      storage = first.0;
      toasts = [];
    })

unfoldable pub update_auto_load : Bool → Layout → Layout
update_auto_load enabled l = record l {
  auto_load = enabled;
  storage =
      if l.storage.is_writable
      then record l.storage {
        entries = insert auto_load_storage_key (if enabled then "1" else "0") l.storage.entries;
      }
      else l.storage;
}
