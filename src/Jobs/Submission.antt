-- ===== src/Jobs/Submission.antt =====
-- What is submitted, and what is not lost (resources/js/hooks/use-job-query-controls.ts).
use horizon_new_dawn.Base.{
  String, Bool, true, false, not, ap, ap₂, ◌∙◌, ◌≡◌, ◌≢◌, ◌↔◌, refl, ◌⊎◌, inl, inr, Option, none,
  some, List, [], ◌∷◌, arith, if◌then◌else◌, ◌==◌, option_eq, string_eq, Bool-cases,
}
use horizon_new_dawn.Jobs.Trim.{trim}
use horizon_new_dawn.Jobs.QueryControls.{
  JobFilterKey, JobFilterValues, Controls, Signature, Event, Page, query_state_signature,
  same_signature, query_effect, filters_effect, debounce_effect, on_timer, set_search,
  set_filter_value, clear_filters, render, is_committed, step, run, type_search, choose, clear,
  elapse, props, with_value,
}

pub same_signature_iff : (a b : Signature) → (same_signature a b ≡ true) ↔ (a ≡ b)
unfolding same_signature
same_signature_iff a b = (λ h. ground arith, λ h. ground arith)

-- The text and the filters that the user sees.
abbrev pub current : Controls → Signature
current c = query_state_signature (trim c.search) c.selected_filters

-- The refs agree with the state; a running timer holds what the user sees; and without a timer what
-- the user sees is what the server has or what was submitted last.
pub record IsCurrent (p : Page) : Type 0 where
  pub search : p.controls.search_ref ≡ p.controls.search
  pub filters : p.controls.selected_filters_ref ≡ p.controls.selected_filters
  pub timer :
      (p.controls.timer ≡ some (current p.controls))
      ⊎ ((p.controls.timer ≡ none)
          × ((current p.controls ≡ query_state_signature p.query p.filters)
              ⊎ (current p.controls ≡ p.controls.last_submitted)))

abbrev Synced : Controls → Type 0
Synced c = (c.search_ref ≡ c.search) × (c.selected_filters_ref ≡ c.selected_filters)

debounce-IsCurrent :
    (query : String) (filters : JobFilterValues) (c : Controls)
    → Synced c
    → IsCurrent
        (record { controls = debounce_effect query filters c; query = query; filters = filters })
unfolding debounce_effect
debounce-IsCurrent query filters c (search, chosen) =
    let here = current c in
    let there = query_state_signature query filters in
    elim (Bool-cases (same_signature here there)) [
      | inl committed ↦
          let e = (same_signature_iff here there).0 committed in
          rw committed (record { search = search; filters = chosen; timer = inr (refl, inl e) })
      | inr differs ↦ elim (Bool-cases (same_signature here c.last_submitted)) [
        | inl submitted ↦
            let e = (same_signature_iff here c.last_submitted).0 submitted in
            rw (differs, submitted)
              (record { search = search; filters = chosen; timer = inr (refl, inr e) })
        | inr unsent ↦
            rw (differs, unsent) (record { search = search; filters = chosen; timer = inl refl })
      ]
    ]

query_effect-Synced : (query : String) (c : Controls) → Synced c → Synced (query_effect query c)
unfolding query_effect
query_effect-Synced query c h = ground arith

filters_effect-Synced :
    (filters : JobFilterValues) (c : Controls) → Synced c → Synced (filters_effect filters c)
unfolding filters_effect
filters_effect-Synced filters c h = ground arith

on_timer-Synced : (c : Controls) → Synced c → Synced (on_timer c)
unfolding on_timer
on_timer-Synced c h = ground arith

render-IsCurrent :
    (new_query new_filters : Bool) (query : String) (filters : JobFilterValues) (c : Controls)
    → Synced c
    → IsCurrent (record {
      controls = render new_query new_filters query filters c;
      query = query;
      filters = filters;
    })
unfolding render
render-IsCurrent new_query new_filters query filters c h =
    let c' = if new_query then query_effect query c else c in
    debounce-IsCurrent query filters (if new_filters then filters_effect filters c' else c')
      (chosen new_filters c' (typed new_query))
  where
    typed : (b : Bool) → Synced (if b then query_effect query c else c)
    typed true = query_effect-Synced query c h
    typed false = h

    chosen :
        (b : Bool) (c' : Controls)
        → Synced c'
        → Synced (if b then filters_effect filters c' else c')
    chosen true c' h' = filters_effect-Synced filters c' h'
    chosen false c' h' = h'

step-IsCurrent : (p : Page) (e : Event) → IsCurrent p → IsCurrent (step p e)
unfolding step
step-IsCurrent p (type_search value) v =
    render-IsCurrent false false p.query p.filters (set_search value p.controls)
      (unfold set_search in (refl, v.filters))
step-IsCurrent p (choose key value) v =
    render-IsCurrent false false p.query p.filters (set_filter_value key value p.controls)
      (unfold set_filter_value in (v.search, refl))
step-IsCurrent p clear v =
    render-IsCurrent false false p.query p.filters (clear_filters p.controls)
      (unfold clear_filters in (v.search, refl))
step-IsCurrent p elapse v =
    render-IsCurrent false false p.query p.filters (on_timer p.controls)
      (on_timer-Synced p.controls (v.search, v.filters))
step-IsCurrent p (props query filters) v =
    render-IsCurrent _ true query filters p.controls (v.search, v.filters)

-- From controls that are current, whatever the user types and chooses, whenever the timer fires,
-- and whatever props arrive: a running timer would submit exactly what the user sees, and without
-- one that is what the server has or what was submitted last.
pub run-IsCurrent : (p : Page) (es : List Event) → IsCurrent p → IsCurrent (run p es)
unfolding run
run-IsCurrent p [] v = v
run-IsCurrent p (e ∷ es) v = run-IsCurrent (step p e) es (step-IsCurrent p e v)

debounce-shown :
    (query : String) (filters : JobFilterValues) (c : Controls)
    → ((debounce_effect query filters c).search ≡ c.search)
      × ((debounce_effect query filters c).selected_filters ≡ c.selected_filters)
      × ((debounce_effect query filters c).submissions ≡ c.submissions)
unfolding debounce_effect
debounce-shown query filters c = ground arith

filters_effect-search :
    (filters : JobFilterValues) (c : Controls) → (filters_effect filters c).search ≡ c.search
unfolding filters_effect
filters_effect-search filters c = ground arith

-- Text whose trimmed form differs from what the server last committed survives any props.
pub typed_search_kept :
    (p : Page) (query : String) (filters : JobFilterValues)
    → trim p.controls.search_ref ≢ p.controls.last_committed_query
    → (step p (props query filters)).controls.search ≡ p.controls.search
unfolding step
typed_search_kept p query filters typing =
    let fresh = not (query == p.query) in
    let c' = if fresh then query_effect query p.controls else p.controls in
    (debounce-shown query filters (filters_effect filters c')).0
    ∙ filters_effect-search filters c'
    ∙ kept fresh
  where
    kept :
        (b : Bool)
        → (if b then query_effect query p.controls else p.controls).search ≡ p.controls.search
    kept false = refl
    kept true = unfold query_effect in ground arith

debounce_of_submitted :
    (query : String) (filters : JobFilterValues) (c : Controls)
    → current c ≡ c.last_submitted
    → (debounce_effect query filters c).timer ≡ none
unfolding debounce_effect
debounce_of_submitted query filters c h =
    ground (arith, (same_signature_iff (current c) c.last_submitted).1 h)

-- In controls that are current, a chosen filter is submitted at once, with the text as typed so
-- far, and once: it is the only new submission, and no timer is left to submit it again.
pub choose_submits_once :
    (p : Page) (key : JobFilterKey) (value : Option String)
    → IsCurrent p
    → let filters = with_value key value p.controls.selected_filters in
      let c = (step p (choose key value)).controls in
      (c.submissions
        ≡ query_state_signature (trim p.controls.search) filters ∷ p.controls.submissions)
      × (c.timer ≡ none)
      × (c.selected_filters ≡ filters)
unfolding step render
choose_submits_once p key value v =
    let c = set_filter_value key value p.controls in
    let shown = debounce-shown p.query p.filters c in
    let now : current c ≡ c.last_submitted =
      unfold set_filter_value in rw (v.search, v.filters) refl in
    (
      shown.2 ∙ (unfold set_filter_value in rw (v.search, v.filters) refl),
      debounce_of_submitted p.query p.filters c now,
      shown.1 ∙ (unfold set_filter_value in rw v.filters refl),
    )

query_effect-shown :
    (query : String) (c : Controls)
    → trim query ≡ query
    → trim c.search ≡ query
    → (trim (query_effect query c).search ≡ query)
      × ((query_effect query c).selected_filters_ref ≡ c.selected_filters_ref)
      × ((query_effect query c).selected_filters ≡ c.selected_filters)
unfolding query_effect
query_effect-shown query c h e = ground arith

filters_effect-shown :
    (filters : JobFilterValues) (c : Controls)
    → c.selected_filters_ref ≡ filters
    → c.selected_filters ≡ filters
    → (filters_effect filters c).selected_filters ≡ filters
unfolding filters_effect
filters_effect-shown filters c h e = ground arith

committed_of_current :
    (query : String) (filters : JobFilterValues) (c : Controls)
    → current c ≡ query_state_signature query filters
    → (is_committed query filters (debounce_effect query filters c) ≡ true)
      × ((debounce_effect query filters c).timer ≡ none)
unfolding debounce_effect is_committed
committed_of_current query filters c h =
    ground (arith, (same_signature_iff (current c) (query_state_signature query filters)).1 h)

-- In controls that are current, when the server's props are what the user sees, with a query that
-- is trimmed, the controls count as committed and no timer runs.
pub echo_commits :
    (p : Page) (query : String) (filters : JobFilterValues)
    → IsCurrent p
    → trim query ≡ query
    → current p.controls ≡ query_state_signature query filters
    → let c = (step p (props query filters)).controls in
      (is_committed query filters c ≡ true) × (c.timer ≡ none)
unfolding step render
echo_commits p query filters v trimmed same =
    let fresh = not (query == p.query) in
    let c' = if fresh then query_effect query p.controls else p.controls in
    let (text, ref, chosen) = seen fresh in
    committed_of_current query filters (filters_effect filters c') (
      ap₂ query_state_signature (ap trim (filters_effect-search filters c') ∙ text)
        (filters_effect-shown filters c' ref chosen))
  where
    seen :
        (b : Bool)
        → let c' = if b then query_effect query p.controls else p.controls in
          (trim c'.search ≡ query)
          × (c'.selected_filters_ref ≡ filters)
          × (c'.selected_filters ≡ filters)
    seen false =
        (ap (λ s. s.query) same, v.filters ∙ ap (λ s. s.filters) same, ap (λ s. s.filters) same)
    seen true =
        let (text, ref, chosen) =
          query_effect-shown query p.controls trimmed (ap (λ s. s.query) same) in
        let is_filters = ap (λ (s : Signature). s.filters) same in
        (text, ref ∙ v.filters ∙ is_filters, chosen ∙ is_filters)
