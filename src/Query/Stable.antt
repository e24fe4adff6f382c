-- ===== src/Query/Stable.antt =====
-- Merging the same parameters into a query a second time changes nothing (resources/js/lib/url-query.ts).
use horizon_new_dawn.Base.{
  String, true, false, ◌≡◌, ◌≢◌, refl, sym, ap, ◌∙◌, inl, inr, Option, none, some, [], ◌∷◌, arith,
  string_eq, All, ==-cases, ==_refl,
}
use horizon_new_dawn.Base.Dict.{lookup, NodupKeys}
use horizon_new_dawn.Base.Int.{ℤ}
use horizon_new_dawn.Query.Params.{
  Params, has, delete, set, has-set, has-delete, set_idem, delete_absent, set_comm, set-delete,
}
use horizon_new_dawn.Query.Merge.{
  QueryParameterValue, Parameters, Url, fill, remove_all, to_set, put, put_all,
  url_with_current_query,
}

-- Setting, or deleting, changes nothing.
abbrev Set : String → Option String → Params → Type 0
Set name none url = has name url ≡ false
Set name (some v) url = (has name url ≡ true) × (set name v url ≡ url)

write : String → Option String → Params → Params
write name none url = delete name url
write name (some v) url = set name v url

Set-write : (name : String) (v : Option String) (url : Params) → Set name v (write name v url)
unfolding write
Set-write name none url = ground (arith, has-delete name name url)
Set-write name (some v) url = (ground (arith, has-set name name v url), set_idem name v url)

-- Another name's write keeps it so.
Set-write_ne :
    (name other : String) (v w : Option String) (url : Params)
    → name ≢ other
    → Set name v url
    → Set name v (write other w url)
unfolding write
Set-write_ne name other none none url h s = ground (arith, has-delete other name url)
Set-write_ne name other none (some w) url h s = ground (arith, has-set other name w url)
Set-write_ne name other (some v) none url h (there, same) = (
  ground (arith, has-delete other name url),
  set-delete name other v url h ∙ ap (delete other) same,
)
Set-write_ne name other (some v) (some w) url h (there, same) = (
  ground (arith, has-set other name w url),
  set_comm name other v w url h there ∙ ap (set other w) same,
)

write_of_Set :
    (name : String) (v : Option String) (url : Params) → Set name v url → write name v url ≡ url
unfolding write
write_of_Set name none url s = delete_absent name url s
write_of_Set name (some v) url s = s.1

-- Every name of the source is in the URL.
abbrev Has : Params → Params → Type 0
Has source url = All (λ (e : String × String). has e.0 url ≡ true) source

fill_of_Has : (source url : Params) → Has source url → fill source url ≡ url
unfolding fill
fill_of_Has [] url h = refl
fill_of_Has ((name, value) ∷ source) url h = ground (arith, fill_of_Has source url h.1, h.0)

Has-cons : (source url : Params) (e : String × String) → Has source url → Has source (e ∷ url)
unfolding has
Has-cons [] url e h = tt
Has-cons ((name, value) ∷ source) url e h = (ground (arith, h.0), Has-cons source url e h.1)

Has-refl : (url : Params) → Has url url
unfolding has
Has-refl [] = tt
Has-refl ((name, value) ∷ url) =
    (ground (arith, ==_refl name), Has-cons url url (name, value) (Has-refl url))

pub fill_self : (url : Params) → fill url url ≡ url
fill_self url = fill_of_Has url url (Has-refl url)

module _ (show : ℤ → String) where
  put-write :
      (name : String) (value : QueryParameterValue) (url : Params)
      → put show name value url ≡ write name (to_set show value) url
  unfolding put write
  put-write name value url = ground arith

  abbrev AllSet : Parameters → Params → Type 0
  AllSet ps url = All (λ (e : String × QueryParameterValue). Set e.0 (to_set show e.1) url) ps

  Set-put_all :
      (name : String) (v : Option String) (ps : Parameters) (url : Params)
      → lookup name ps ≡ none
      → Set name v url
      → Set name v (put_all show ps url)
  unfolding put_all lookup
  Set-put_all name v [] url h s = s
  Set-put_all name v ((other, value) ∷ ps) url h s = elim (==-cases other name) [
    | inl (hit, _) ↦ absurd (ground arith)
    | inr (miss, differ) ↦ Set-put_all name v ps (put show other value url) (ground arith) (
        rw (put-write other value url)
          (Set-write_ne name other v (to_set show value) url (λ e. differ (sym e)) s))
  ]

  AllSet-put_all : (ps : Parameters) (url : Params) → NodupKeys ps → AllSet ps (put_all show ps url)
  unfolding put_all
  AllSet-put_all [] url u = tt
  AllSet-put_all ((name, value) ∷ ps) url (fresh, u) = (
    Set-put_all name (to_set show value) ps (put show name value url) fresh
        (rw (put-write name value url) (Set-write name (to_set show value) url)),
    AllSet-put_all ps (put show name value url) u,
  )

  put_all_of_AllSet : (ps : Parameters) (url : Params) → AllSet ps url → put_all show ps url ≡ url
  unfolding put_all
  put_all_of_AllSet [] url h = refl
  put_all_of_AllSet ((name, value) ∷ ps) url (here, rest) =
      ap (put_all show ps)
        (put-write name value url ∙ write_of_Set name (to_set show value) url here)
      ∙ put_all_of_AllSet ps url rest

  -- With the parameters in the address, the same parameters leave it as it is.
  pub url_with_current_query_idem :
      (current : Url) (parameters : Parameters)
      → NodupKeys parameters
      → let next = url_with_current_query show current current parameters [] in
        url_with_current_query show next next parameters [] ≡ next
  unfolding url_with_current_query remove_all
  url_with_current_query_idem current parameters u =
      let filled = fill current.search_params current.search_params in
      let params = put_all show parameters filled in
      ap (λ q. record current { search_params = q })
        (ap (put_all show parameters) (fill_self params)
          ∙ put_all_of_AllSet parameters params (AllSet-put_all parameters filled u))
