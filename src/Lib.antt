-- ===== src/Lib.antt =====
-- Verification of the browser application of Horizon New Dawn, the dashboard of Laravel Horizon queues.
-- Its logic is in React hooks and small libraries under resources/js; the pages wire them together.
--
-- The parts and their files:
-- - Transitions: resources/js/hooks/use-process-transitions.ts. The dashboard's buttons ask to pause or to
--   continue an instance or a supervisor; the transition is pending until a report settles it, the request
--   fails, or it expires. Model has the pure functions, Hook the state (`Hook`: the ref, the React state,
--   the token counter, the running timeout) and the handlers, Run the sequences of timed events. The types
--   are those of resources/js/types/dashboard.ts.
-- - Refresh: resources/js/lib/auto-refresh-status.ts. `trackBackgroundRefresh` wraps the callbacks of each
--   polling request; Status has the module's variables (`Store`), a request's closure (`Tracker`) and one
--   function for all callbacks (`handle`). Refinement has an abstract machine that it implements, Listeners the
--   subscriptions.
-- - Requests: resources/js/lib/inertia-request-coordination.ts. Polls register their cancel function, and a
--   foreground visit calls those that are registered.
-- - Sorting: resources/js/hooks/use-sortable-rows.ts, `sortRows` with `compareValues`, and the sort in the
--   address (`Persisted`, `Reload`). Numbers are integers of a unit that all of them are multiples of, or -Infinity.
-- - Jobs: resources/js/hooks/use-job-query-controls.ts (`QueryControls`),
--   resources/js/hooks/use-job-filter-catalog-refresh.ts (`Catalog`) and
--   resources/js/components/jobs/failed-job-actions.tsx (`FailedActions`), with the filter keys of
--   resources/js/components/jobs/job-filters.tsx and the types of resources/js/types/jobs.ts.
-- - Polling: resources/js/hooks/use-auto-load.ts (`AutoLoad`), resources/js/hooks/use-dashboard-refresh.ts
--   (`Page`), resources/js/hooks/use-scheduled-job-clock.ts and resources/js/lib/pending-job-state.ts
--   (`Clock`). The polls' requests go through Refresh and Requests.
-- - Query: resources/js/lib/url-query.ts, over `URLSearchParams` as a list of pairs: Merge on parsed URLs, Address
--   on texts.
-- - Format: resources/js/lib/format-duration.ts.
-- - Theme: resources/js/hooks/use-color-scheme.tsx.
-- - Queues: resources/js/components/queues/queue-actions-menu.tsx, its handlers and its items, and
--   resources/js/components/queues/queue-overview.tsx (`Overview`) and queue-activity-tabs.tsx (`Activity`).
-- - Routes: resources/js/lib/horizon-route.ts.
-- - Batches: resources/js/components/batches/batch-actions.tsx, its two menus with their dialogs, and
--   resources/js/pages/batches/index.tsx, the search and the visits of the page (`Search`) and its filter
--   options (`Options`).
-- - Workload: resources/js/components/dashboard/workload-table.tsx, the names of pools (`Pools`) and the cells
--   of a row (`Rows`), with resources/js/components/queues/queue-wait-threshold.tsx.
-- - Instances: resources/js/components/dashboard/horizon-instances-actions.tsx and supervisors-table.tsx. Host
--   is the interface that a menu is given and its implementation by Transitions, Command a command's request
--   and menu, Display what the table shows and offers, Agreement that it offers what may start, Terminate the
--   menu of all instances, and Scaling the indicator of a supervisor that scales.
-- - Json: the values of JSON, with integers for numbers. Payload: resources/js/components/payload/json-payload.tsx.
--   It takes of a number only the text that the platform prints, so the integers may stand for any numbers there.
--   Token and Highlight colour a text, Tree builds the lines of a value, Serialize has their text and
--   `JSON.stringify` as ECMA-262 defines it, Shown relates the two, View is `JsonPayload`, and Scroll keeps the
--   position of the window.
-- - Layout: resources/js/layouts/horizon-layout.tsx, its stored counts and preference.
-- - Base: the helpers that these share. Tests: the theorems at concrete inputs.
--
-- How the code is modelled: a hook's refs, React states and running timers are the fields of a record, a
-- handler or an effect is a function on it, and an event of a sequence is a handler followed by the effects
-- of the render. React is taken to run the effects before the next event. Times are whole milliseconds (in
-- Format, hundredths of a second once rounded), and the clock's reading comes with each event. Objects that
-- the code compares by identity (cancel functions, catalogues) are numbers, and a function that may return
-- its argument unchanged says so in its result. All loops are structural recursion: no fuel is used.
--
-- Parameters, since they are the platform's: the collators and the text of a number in Sorting, Batches,
-- Workload and Queues, the text of a number and of a URL in Query, the parse and the text of a URL in Routes,
-- the `Intl` formatters in Format, and `JSON.parse` and the print of a text, of a number and of a stored entry
-- in Payload and Layout. The results on sorted order assume of the collator that it orders texts consistently,
-- those on a payload and on stored counts that a printed value is parsed to itself, and that on a sort in the address
-- that the text of a URL is parsed to its query; the others assume nothing of the parameters.
--
-- Not modelled: the PHP side, the markup, the copies of user interface primitives, the generated routes, and
-- the remaining tables, pages and dialogs, which are mostly markup.
pub mod Base
pub mod Transitions
pub mod Refresh
pub mod Requests
pub mod Sorting
pub mod Jobs
pub mod Polling
pub mod Query
pub mod Format
pub mod Theme
pub mod Queues
pub mod Batches
pub mod Instances
pub mod Json
pub mod Layout
pub mod Payload
pub mod Workload
pub mod Routes
mod Tests
