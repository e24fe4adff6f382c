-- ===== src/Queues/Activity.antt =====
-- resources/js/components/queues/queue-activity-tabs.tsx: the tabs with their counts, and the prefetch of a tab
-- that gets the focus, or is under the pointer after a delay. `formatCount` takes the platform's formats.
use horizon_new_dawn.Base.{
  ℕ, String, ◌<>◌, Bool, true, false, not, ◌||◌, ◌≡◌, refl, ◌⊎◌, inl, inr, Option, none, some, List,
  [], ◌∷◌, leb, find, keep, if◌then◌else◌, All,
}

pub data Tab : Type 0 where
  pending completed failed silenced batches : Tab

abbrev pub same_tab : Tab → Tab → Bool
same_tab pending pending = true
same_tab completed completed = true
same_tab failed failed = true
same_tab silenced silenced = true
same_tab batches batches = true
same_tab a b = false

-- `formatCount` of resources/js/lib/format-count.ts, for counts.
unfoldable pub format_count : (ℕ → String) → (ℕ → String) → ℕ → String
format_count full compact count = if leb 10000 count then compact count else full count

-- A count of the summary, and whether it is complete.
abbrev pub Count : Type 0
Count = Option ℕ × Bool

pub record Summary : Type 0 where
  pub pending_jobs : Count
  pub completed_jobs : Count
  pub failed_jobs : Count
  pub silenced_jobs : Count
  pub batches : Count

abbrev pub count_of : Summary → Tab → Count
count_of s pending = s.pending_jobs
count_of s completed = s.completed_jobs
count_of s failed = s.failed_jobs
count_of s silenced = s.silenced_jobs
count_of s batches = s.batches

abbrev pub shown_count : (ℕ → String) → Count → String
shown_count format (none, complete) = "—"
shown_count format (some value, complete) = if complete then format value else format value <> "+"

unfoldable pub tab_count : (ℕ → String) → (ℕ → String) → Summary → Tab → String
unfolding format_count
tab_count full compact summary tab = shown_count (format_count full compact) (count_of summary tab)

abbrev pub tabs : List Tab
tabs = pending ∷ completed ∷ failed ∷ silenced ∷ batches ∷ []

unfoldable pub available_tabs : Bool → List Tab
unfolding keep
available_tabs batch_attribution_available =
    keep (λ tab. not (same_tab tab batches) || batch_attribution_available) tabs

-- The tab that `selectTab` visits, if it does.
unfoldable pub select_tab : Bool → Tab → Option Tab → Option Tab
unfolding available_tabs find
select_tab batch_attribution_available current none = none
select_tab batch_attribution_available current (some value) =
    elim (find (λ item. same_tab item value) (available_tabs batch_attribution_available)) [
      | none ↦ none
      | some next ↦ if same_tab next current then none else some next
    ]

-- The timeout of the prefetch with the tab of its closure, the tab under the pointer, the tab that has the focus,
-- the prefetches, each with the tab that was under the pointer and the one that had the focus, and the visits.
pub record Hover : Type 0 where
  pub timeout : Option Tab
  pub pointer : Option Tab
  pub focus : Option Tab
  pub prefetched : List (Tab × Option Tab × Option Tab)
  pub visited : List Tab

unfoldable pub cancel_hover_prefetch : Hover → Hover
cancel_hover_prefetch h = record h { timeout = none }

unfoldable pub prefetch_after_hover_delay : Tab → Hover → Hover
unfolding cancel_hover_prefetch
prefetch_after_hover_delay tab h = record (cancel_hover_prefetch h) { timeout = some tab }

abbrev pub prefetch : Option Tab → Hover → Hover
prefetch none h = h
prefetch (some tab) h = record h { prefetched = (tab, h.pointer, h.focus) ∷ h.prefetched }

pub data Event : Type 0 where
  enter leave click focused blurred : Tab → Event
  elapse changed : Event

-- The pointer leaves a tab before it enters another, and the focus too. `changed` is the effect on the query, the
-- queue and the tab.
unfoldable pub step : Event → Hover → Hover
unfolding prefetch_after_hover_delay cancel_hover_prefetch
step (enter tab) h = prefetch_after_hover_delay tab (record h { pointer = some tab })
step (leave tab) h = cancel_hover_prefetch (record h { pointer = none })
step (click tab) h = record (cancel_hover_prefetch h) { visited = tab ∷ h.visited }
step (focused tab) h = prefetch (some tab) (record h { focus = some tab })
step (blurred tab) h = record h { focus = none }
step elapse h = record (prefetch h.timeout h) { timeout = none }
step changed h = cancel_hover_prefetch h

unfoldable pub run : List Event → Hover → Hover
unfolding step
run [] h = h
run (e ∷ es) h = run es (step e h)

-- A timeout runs for the tab under the pointer only.
abbrev pub ForPointer : Option Tab → Option Tab → Type 0
ForPointer none pointer = Unit
ForPointer (some tab) pointer = pointer ≡ some tab

-- A prefetched tab was under the pointer or had the focus.
abbrev pub Attended : Tab × Option Tab × Option Tab → Type 0
Attended (tab, pointer, focus) = (pointer ≡ some tab) ⊎ (focus ≡ some tab)

abbrev pub IsAttended : Hover → Type 0
IsAttended h = ForPointer h.timeout h.pointer × All Attended h.prefetched

elapse-Attended :
    (timeout : Option Tab) (h : Hover)
    → ForPointer timeout h.pointer
    → All Attended h.prefetched
    → All Attended (prefetch timeout h).prefetched
elapse-Attended none h f all_so = all_so
elapse-Attended (some tab) h f all_so = (inl f, all_so)

step-IsAttended : (e : Event) (h : Hover) → IsAttended h → IsAttended (step e h)
unfolding step prefetch_after_hover_delay cancel_hover_prefetch
step-IsAttended (enter tab) h (f, all_so) = (refl, all_so)
step-IsAttended (leave tab) h (f, all_so) = (tt, all_so)
step-IsAttended (click tab) h (f, all_so) = (tt, all_so)
step-IsAttended (focused tab) h (f, all_so) = (f, (inr refl, all_so))
step-IsAttended (blurred tab) h (f, all_so) = (f, all_so)
step-IsAttended elapse h (f, all_so) = (tt, elapse-Attended h.timeout h f all_so)
step-IsAttended changed h (f, all_so) = (tt, all_so)

-- From a state where this holds, whatever the pointer and the focus do and whenever the delay ends, a timeout runs
-- only for the tab under the pointer, and a tab is prefetched only while it is under the pointer or has the focus.
pub run-IsAttended : (es : List Event) (h : Hover) → IsAttended h → IsAttended (run es h)
unfolding run
run-IsAttended [] h u = u
run-IsAttended (e ∷ es) h u = run-IsAttended es (step e h) (step-IsAttended e h u)
