-- ===== src/Routes/Resolve.antt =====
-- `resolveHorizonRoute`. The parse and the text of a URL are parameters.
use Prim.Native.Char.{Char, code}
use text.Mathlib.TextLemmas.{nil-append, cons-append}
use text.Mathlib.TextEquality.{Char-path}
use horizon_new_dawn.Base.{
  ==_refl, ◌⊎◌, ℕ, String, ◌<>◌, Bool, true, false, not, ◌&&◌, ◌||◌, ◌≡◌, refl, ap, sym, ◌∙◌,
  Option, none, some, arith, if◌then◌else◌, ◌==◌, string_eq, nat_eq, ==-cases, inl, inr,
}
use horizon_new_dawn.Jobs.Trim.{is_empty}

-- The parts of a `URL` that the function reads and writes; `origin` is the rest of it.
pub record Url : Type 0 where
  pub origin : String
  pub pathname : String
  pub search : String
  pub hash : String

-- `new URL(text, placeholderOrigin)`, `URL.canParse(text)`, `url.toString()`, and what `url.pathname` is after a
-- path was assigned to it (`/` after the empty one).
pub record Platform : Type 0 where
  pub parse : String → Url
  pub can_parse : String → Bool
  pub show : Url → String
  pub assigned : String → String

-- `pathname.replace(/\/+$/, "")`
unfoldable pub without_slashes : String → String
without_slashes String.[] = String.[]
without_slashes (String.◌∷◌ c s) =
    let rest = without_slashes s in
    if is_empty rest && (code c == 47) then String.[] else String.◌∷◌ c rest

-- `s.startsWith(p)`
unfoldable pub starts_with : String → String → Bool
starts_with String.[] s = true
starts_with (String.◌∷◌ c p) String.[] = false
starts_with (String.◌∷◌ c p) (String.◌∷◌ d s) = (code c == code d) && starts_with p s

-- `s.slice(p.length)`, where p has as many characters.
unfoldable pub slice_after : String → String → String
slice_after String.[] s = s
slice_after (String.◌∷◌ c p) String.[] = String.[]
slice_after (String.◌∷◌ c p) (String.◌∷◌ d s) = slice_after p s

-- The route's path is the generated base or below it.
unfoldable pub is_horizon_path : String → String → Bool
unfolding starts_with
is_horizon_path base path = (path == base) || starts_with (base <> "/") path

module _ (platform : Platform) (horizon_index : String) where
  abbrev pub generated_base_path : String
  generated_base_path = without_slashes (platform.parse horizon_index).pathname

  -- The configured base with the route's path behind it, and its query and fragment.
  unfoldable pub configured : Url → String → Url
  unfolding without_slashes slice_after
  configured route horizon_base_url =
      let base = platform.parse horizon_base_url in
      record base {
        pathname =
            platform.assigned
              (without_slashes base.pathname <> slice_after generated_base_path route.pathname);
        search = route.search;
        hash = route.hash;
      }

  -- The resolved URL; none is the error.
  unfoldable pub resolve_horizon_route : String → String → Option String
  unfolding configured is_horizon_path without_slashes
  resolve_horizon_route route_url horizon_base_url =
      let route = platform.parse route_url in
      let url = configured route horizon_base_url in
      if not (is_horizon_path generated_base_path route.pathname)
      then none
      else if platform.can_parse horizon_base_url
      then some (platform.show url)
      else some (url.pathname <> (url.search <> url.hash))

same_code : (m n : ℕ) → (m == n) ≡ true → m ≡ n
same_code m n h = ground arith

both : (a b : Bool) → a && b ≡ true → (a ≡ true) × (b ≡ true)
both a b h = (ground arith, ground arith)

-- A text that starts with a prefix is the prefix and what is sliced after it.
slice_lem : (p s : String) → starts_with p s ≡ true → s ≡ p <> slice_after p s
unfolding starts_with slice_after
slice_lem String.[] s h = sym (nil-append s)
slice_lem (String.◌∷◌ c p) String.[] h = ground arith
slice_lem (String.◌∷◌ c p) (String.◌∷◌ d s) h =
    let (first, rest) = both (code c == code d) (starts_with p s) h in
    ap (λ k. String.◌∷◌ k s) (sym (Char-path c d (same_code (code c) (code d) first)))
    ∙ (ap (λ later. String.◌∷◌ c later) (slice_lem p s rest)
        ∙ sym (cons-append c p (slice_after p s)))

slice_itself : (p : String) → slice_after p p ≡ ""
unfolding slice_after
slice_itself String.[] = refl
slice_itself (String.◌∷◌ c p) = slice_itself p

starts_itself : (p : String) → starts_with p p ≡ true
unfolding starts_with
starts_itself String.[] = refl
starts_itself (String.◌∷◌ c p) = rw (==_refl (code c)) (starts_itself p)

too_short : (c : Char) (p : String) → starts_with (String.◌∷◌ c p) String.[] ≡ true → ⊥
unfolding starts_with
too_short c p h = cc

some_if : (b : Bool) (x y : String) → (if b then some x else some y) ≡ some (if b then x else y)
some_if true x y = refl
some_if false x y = refl

abbrev Continues : String → String → Type 0
Continues p s = (starts_with p s ≡ true) × (starts_with "/" (slice_after p s) ≡ true)

starts-Continues : (p s : String) → starts_with (p <> "/") s ≡ true → Continues p s
unfolding starts_with slice_after
starts-Continues String.[] s h = (refl, h)
starts-Continues (String.◌∷◌ c p) String.[] h =
    absurd
      (too_short c (p <> "/") (ap (λ q. starts_with q String.[]) (sym (cons-append c p "/")) ∙ h))
starts-Continues (String.◌∷◌ c p) (String.◌∷◌ d s) h =
    let h' = ap (λ q. starts_with q (String.◌∷◌ d s)) (sym (cons-append c p "/")) ∙ h in
    let (first, rest) = both (code c == code d) (starts_with (p <> "/") s) h' in
    let (later, slash) = starts-Continues p s rest in (rw first later, slash)

-- What is behind the base in a path: nothing, or a path.
abbrev pub IsSuffix : String → Type 0
IsSuffix suffix = (suffix ≡ "") ⊎ (starts_with "/" suffix ≡ true)

horizon_path_lem :
    (base path : String)
    → is_horizon_path base path ≡ true
    → (path ≡ base <> slice_after base path) × IsSuffix (slice_after base path)
unfolding is_horizon_path
horizon_path_lem base path h = elim (==-cases path base) [
  | inl (_, same) ↦ rw same (slice_lem base base (starts_itself base), inl (slice_itself base))
  | inr (other, _) ↦
      let (starts, slash) =
        starts-Continues base path
          (ap (λ b. b || starts_with (base <> "/") path) (sym other) ∙ h) in
      (slice_lem base path starts, inr slash)
]

-- A route whose path is the generated base or below it is moved to the configured base: its path is the generated
-- base with a suffix, and the resolved URL is that of the configured base, without slashes at the end of its
-- path, with the same suffix, as the path that was assigned, query and fragment; absolute if the configured base is, else relative.
pub resolve_relocates :
    (platform : Platform) (horizon_index route_url horizon_base_url : String)
    → let route = platform.parse route_url in
      let base = platform.parse horizon_base_url in
      let generated = generated_base_path platform horizon_index in
      is_horizon_path generated route.pathname ≡ true
      → (suffix : String) × (route.pathname ≡ generated <> suffix)
        × IsSuffix suffix
        × let pathname = platform.assigned (without_slashes base.pathname <> suffix) in
          (resolve_horizon_route platform horizon_index route_url horizon_base_url
            ≡ some (
                if platform.can_parse horizon_base_url
                then platform.show
                    (record base { pathname = pathname; search = route.search; hash = route.hash })
                else pathname <> (route.search <> route.hash)))
unfolding resolve_horizon_route configured
resolve_relocates platform horizon_index route_url horizon_base_url h =
    let route = platform.parse route_url in
    let generated = generated_base_path platform horizon_index in
    let (whole, suffix) = horizon_path_lem generated route.pathname h in
    (
      slice_after generated route.pathname,
      whole,
      suffix,
      rw h (some_if (platform.can_parse horizon_base_url) _ _),
    )
