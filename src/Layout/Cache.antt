-- ===== src/Layout/Cache.antt =====
-- What the stored counts of resources/js/layouts/horizon-layout.tsx are good for.
use horizon_new_dawn.Base.{
  ℕ, ◌+◌, String, Bool, true, false, ◌≡◌, refl, ap, ◌∙◌, Option, none, some, arith, ltb,
  if◌then◌else◌, ◌==◌, string_eq, List, [], ◌∷◌, all, All, ◌&&◌, by_test, option_eq, ==_refl,
}
use horizon_new_dawn.Base.Dict.{Dict, lookup, insert, lookup-insert}
use horizon_new_dawn.Base.Int.{ℤ, pos, leb_ℤ}
use horizon_new_dawn.Json.{Json, null, boolean, text, array, number, object, empty, field}
use horizon_new_dawn.Layout.Counts.{
  Storage, Layout, navigation_count_keys, navigation_counts_storage_key, is_count, property,
  property_of, has_counts, accepted, stored_navigation_counts_of, stored_navigation_counts,
  store_navigation_counts, checked, read_entry, accepted, parsed, cache_entry, update_auto_load,
  stored_auto_load_preference, auto_load_storage_key,
}

lookup-insert_same :
    {V : Type 0} (key : String) (v : V) (d : Dict String V) → lookup key (insert key v d) ≡ some v
lookup-insert_same key v d =
    lookup-insert key key v d ∙ ap (λ b. if b then some v else lookup key d) (==_refl key)

entry_accepted :
    (counts : Json) (expires_at : ℕ)
    → has_counts counts ≡ true
    → stored_navigation_counts_of
        (object (field "counts" counts (field "expiresAt" (number (pos expires_at)) empty)))
      ≡ some (counts, pos expires_at)
unfolding stored_navigation_counts_of property property_of string_eq
entry_accepted counts expires_at wf = rw wf refl

-- Counts with all fields that were stored are found by a load within five minutes, and not from then on, if the
-- storage can be read and written and the stored text is parsed to what was printed.
pub stored-store_navigation_counts :
    (parse : String → Option Json) (stringify : Json → String) (base_url : String) (counts : Json)
    (now later : ℕ) (s : Storage)
    → has_counts counts ≡ true
    → parse (stringify (cache_entry counts now)) ≡ some (cache_entry counts now)
    → s.is_readable ≡ true
    → s.is_writable ≡ true
    → (stored_navigation_counts parse base_url later
        (store_navigation_counts stringify base_url counts now s)).1
      ≡ (if ltb later (now + 300000) then some counts else none)
unfolding stored_navigation_counts store_navigation_counts
stored-store_navigation_counts parse stringify base_url counts now later s wf round readable
      writable =
    let key = navigation_counts_storage_key base_url in
    rw
      (
        writable,
        readable,
        lookup-insert_same key (stringify (cache_entry counts now)) s.entries,
        round,
        entry_accepted counts (now + 300000) wf,
      )
      (ground arith)

-- A number or null.
abbrev pub IsCount : Option Json → Type 0
IsCount (some (number n)) = Unit
IsCount (some null) = Unit
IsCount value = ⊥

-- What the counts are, if there are any: nine fields, one for each item of the navigation that has a count.
abbrev pub AreCounts : Option Json → Type 0
AreCounts none = Unit
AreCounts (some counts) =
    All (λ name. IsCount (property name counts))
      ("instances" ∷ "monitoring" ∷ "metrics" ∷ "queues" ∷ "batches" ∷ "pending" ∷ "completed"
        ∷ "silenced" ∷ "failed" ∷ [])

is_count_lem : (value : Option Json) → is_count value ≡ true → IsCount value
is_count_lem none h = ground arith
is_count_lem (some null) h = tt
is_count_lem (some (boolean b)) h = ground arith
is_count_lem (some (number n)) h = tt
is_count_lem (some (text s)) h = ground arith
is_count_lem (some (array items)) h = ground arith
is_count_lem (some (object fields)) h = ground arith

both : (a b : Bool) → (a && b) ≡ true → (a ≡ true) × (b ≡ true)
both true b h = (refl, h)
both false b h = ground arith

all-IsCount :
    (counts : Json) (keys : List String)
    → all (λ k. is_count (property k counts)) keys ≡ true
    → All (λ k. IsCount (property k counts)) keys
unfolding all
all-IsCount counts [] h = tt
all-IsCount counts (key ∷ keys) h =
    let (first, rest) = both _ _ h in
    (is_count_lem (property key counts) first, all-IsCount counts keys rest)

has_counts-AreCounts : (counts : Json) → has_counts counts ≡ true → AreCounts (some counts)
unfolding has_counts
has_counts-AreCounts counts h = all-IsCount counts navigation_count_keys h

module _ (key : String) (now : ℕ) (s : Storage) where
  found-AreCounts :
      (counts : Json) (expires_at : ℤ)
      → AreCounts
          (checked key now s (if has_counts counts then some (counts, expires_at) else none)).1
  found-AreCounts counts expires_at =
      by_test (λ o. AreCounts (checked key now s o).1) (has_counts counts)
        (λ t.
          by_test (λ (r : Storage × Option Json). AreCounts r.1) (leb_ℤ expires_at (pos now))
            (λ late. tt) (λ early. has_counts-AreCounts counts t))
        (λ f. tt)

  checked-AreCounts :
      (counts expires_at : Option Json)
      → AreCounts (checked key now s (accepted counts expires_at)).1
  checked-AreCounts (some c) (some (number n)) = found-AreCounts c n
  checked-AreCounts counts expires_at = tt

  read-AreCounts : (entry : Option Json) → AreCounts (read_entry key now s entry).1
  unfolding stored_navigation_counts_of
  read-AreCounts none = tt
  read-AreCounts (some value) =
      checked-AreCounts (property "counts" value) (property "expiresAt" value)

-- Whatever the storage holds, a load yields no counts, or a value that has a number or null in each of the nine
-- fields of the navigation's counts.
pub stored_navigation_counts-AreCounts :
    (parse : String → Option Json) (base_url : String) (now : ℕ) (s : Storage)
    → AreCounts (stored_navigation_counts parse base_url now s).1
unfolding stored_navigation_counts
stored_navigation_counts-AreCounts parse base_url now s =
    let key = navigation_counts_storage_key base_url in
    by_test (λ (r : Storage × Option Json). AreCounts r.1) s.is_readable
      (λ t. read-AreCounts key now s (parsed parse (lookup key s.entries))) (λ f. tt)

abbrev chosen : Bool → Option String
chosen enabled = some (if enabled then "1" else "0")

choice : (enabled : Bool) → (chosen enabled == some "1") ≡ enabled
unfolding option_eq string_eq
choice true = refl
choice false = refl

-- The choice to load new entries is there for the next load, if the storage can be used.
pub stored-update_auto_load :
    (enabled : Bool) (l : Layout)
    → l.storage.is_readable ≡ true
    → l.storage.is_writable ≡ true
    → stored_auto_load_preference (update_auto_load enabled l).storage ≡ enabled
unfolding stored_auto_load_preference update_auto_load
stored-update_auto_load enabled l readable writable =
    rw
      (
        writable,
        readable,
        lookup-insert_same auto_load_storage_key (if enabled then "1" else "0") l.storage.entries,
      )
      (choice enabled)
