-- ===== src/Tests/Jobs.antt =====
-- Queries of the jobs pages (resources/js/hooks/use-job-query-controls.ts and
-- resources/js/hooks/use-job-filter-catalog-refresh.ts).
use horizon_new_dawn.Base.{
  ℕ, false, ◌≡◌, ◌≢◌, refl, ap, sym, ◌∙◌, nat_eq, inl, inr, none, some, List, [], ◌∷◌, string_eq,
  arith,
}
use horizon_new_dawn.Jobs.Trim.{trim, trim_start, trim_end, is_space, is_empty}
use horizon_new_dawn.Jobs.QueryControls.{
  queue, empty_job_filter_values, with_value, Page, initial, Event, type_search, choose, elapse,
  props, step, run, query_state_signature, Signature,
}
use horizon_new_dawn.Jobs.Catalog
use horizon_new_dawn.Jobs.Catalog.{Refresh}
use horizon_new_dawn.Jobs.CatalogLaws.{fresh_no_reload}
use horizon_new_dawn.Jobs.Submission.{current, IsCurrent, run-IsCurrent, choose_submits_once}

abbrev fresh_page : Page
fresh_page = record {
  controls = initial "" empty_job_filter_values;
  query = "";
  filters = empty_job_filter_values;
}

trim_empty : trim "" ≡ ""
unfolding trim trim_start trim_end
trim_empty = refl

fresh_page-IsCurrent : IsCurrent fresh_page
unfolding initial
fresh_page-IsCurrent = record {
  search = refl;
  filters = refl;
  timer = inr (refl, inl (ap (λ q. query_state_signature q empty_job_filter_values) trim_empty));
}

abbrev typing : List Event
typing =
    type_search "mail"
    ∷ choose queue (some "default")
    ∷ elapse
    ∷ props "mail" empty_job_filter_values
    ∷ []

run-IsCurrent_example : IsCurrent (run fresh_page typing)
run-IsCurrent_example = run-IsCurrent fresh_page typing fresh_page-IsCurrent

choose_submits_once_example :
    let filters = with_value queue (some "default") empty_job_filter_values in
    let c = (step fresh_page (choose queue (some "default"))).controls in
    (c.submissions ≡ query_state_signature (trim "") filters ∷ [])
    × (c.timer ≡ none)
    × (c.selected_filters ≡ filters)
unfolding initial
choose_submits_once_example =
    choose_submits_once fresh_page queue (some "default") fresh_page-IsCurrent

abbrev mail : Signature
mail = query_state_signature "mail" empty_job_filter_values

abbrev typed_page : Page
typed_page = record fresh_page {
  controls = record {
    search = "mail";
    selected_filters = empty_job_filter_values;
    search_ref = "mail";
    selected_filters_ref = empty_job_filter_values;
    last_committed_query = "";
    last_committed_filters = empty_job_filter_values;
    last_submitted = query_state_signature "" empty_job_filter_values;
    timer = some mail;
    submissions = [];
  };
}

trim_mail : trim "mail" ≡ "mail"
unfolding trim trim_start trim_end is_space nat_eq
trim_mail = refl

typed_mail : current typed_page.controls ≡ mail
typed_mail = ap (λ q. query_state_signature q empty_job_filter_values) trim_mail

typed_page-IsCurrent : IsCurrent typed_page
typed_page-IsCurrent = record {
  search = refl;
  filters = refl;
  timer = inl (ap some (sym typed_mail));
}

mail_typed : trim "mail" ≢ ""
mail_typed eq = let different = ap is_empty (sym trim_mail ∙ eq) in ground (arith, different)

abbrev cataloged : Refresh
cataloged = record {
  in_flight = false;
  cancel_ref = none;
  cancel_request = none;
  catalog = some 1;
  refreshed_at = 1000;
  reloads = 0;
  finished = 0;
  cancelled = [];
}

abbrev intents : List (ℕ × Catalog.Event)
intents = (1100, Catalog.Event.intent) ∷ (1249, Catalog.Event.intent) ∷ []

fresh_no_reload_example : (Catalog.run 250 intents cataloged).reloads ≡ 0
fresh_no_reload_example =
    fresh_no_reload 250 1000 intents cataloged (omega arith) refl
      ((omega arith, omega arith), ((omega arith, omega arith), tt))
