-- ===== src/Tests/Payload.antt =====
-- A payload (resources/js/components/payload/json-payload.tsx) and stored counts
-- (resources/js/layouts/horizon-layout.tsx).
use horizon_new_dawn.Base.{
  String, true, ◌≡◌, refl, Option, none, some, [], ◌∷◌, ltb, if◌then◌else◌, arith, string_eq,
}
use horizon_new_dawn.Base.Int.{pos}
use horizon_new_dawn.Json
use horizon_new_dawn.Json.{Json, field, empty}
use horizon_new_dawn.Layout.Counts.{
  Storage, has_counts, cache_entry, stored_navigation_counts, store_navigation_counts,
}
use horizon_new_dawn.Layout.Cache.{
  AreCounts, stored-store_navigation_counts, stored_navigation_counts-AreCounts,
}
use horizon_new_dawn.Payload.Text.{Units, units}
use horizon_new_dawn.Payload.Highlight.{text_of, highlighted_json, text_of-highlighted_json}
use horizon_new_dawn.Payload.Tree.{Printer}
use horizon_new_dawn.Payload.View.{
  ShownAsCopied, serialize_json, json_payload, json_payload-ShownAsCopied,
}
use horizon_new_dawn.Payload.Scroll.{
  State, Found, toggle, resize, frame, run, toggle_keeps_position,
}

abbrev quotation : Units
quotation = units "{\"id\": 7}"

text_of-highlighted_json_example : text_of (highlighted_json quotation) ≡ quotation
text_of-highlighted_json_example = text_of-highlighted_json quotation

-- A printer that marks texts and numbers by one unit each.
abbrev marks : Printer
marks = record { quoted = λ s. 115 ∷ []; numeral = λ n. 110 ∷ [] }

abbrev payload : Json
payload = Json.object (
    field "id" (Json.number (pos 7))
      (field "tags" (Json.array (Json.cons (Json.text "a") (Json.cons Json.null Json.nil))) empty))

abbrev reads_payload : Units → Option Json
reads_payload s = some payload

json_payload-ShownAsCopied_example :
    ShownAsCopied
      (serialize_json marks reads_payload payload)
      (json_payload marks reads_payload (some payload))
json_payload-ShownAsCopied_example = json_payload-ShownAsCopied marks reads_payload payload refl

abbrev scrolled : State
scrolled = record {
  refs = record {
    pending_frame = none;
    pending_trigger = none;
    pending_scroll_left = 0;
    pending_scroll_top = 0;
  };
  document = record {
    content_height = 3000;
    spacer_height = 0;
    client_height = 800;
    scroll_left = 0;
    scroll_top = 2000500;
  };
  frames = [];
  next_frame = 1;
}

abbrev everything : Found
everything = record { has_spacer = true; has_scrolling_element = true; is_connected = true }

toggle_keeps_position_example :
    (run (toggle 4 ∷ resize 1000 ∷ frame everything ∷ []) scrolled).document.scroll_top ≡ 2000500
toggle_keeps_position_example =
    toggle_keeps_position scrolled 4 1000 everything refl refl refl refl (omega arith)

abbrev counts : Json
counts = Json.object (
    field "instances" (Json.number (pos 1)) (
      field "monitoring" Json.null (
        field "metrics" Json.null (
          field "queues" (Json.number (pos 3)) (
            field "batches" Json.null (
              field "pending" Json.null (
                field "completed" Json.null
                  (field "silenced" Json.null (field "failed" Json.null empty)))))))))

counts_complete : has_counts counts ≡ true
unfolding has_counts string_eq
counts_complete = refl

abbrev empty_storage : Storage
empty_storage = record { is_readable = true; is_writable = true; entries = [] }

abbrev reads_entry : String → Option Json
reads_entry s = some (cache_entry counts 1000)

abbrev prints : Json → String
prints value = "entry"

stored-store_navigation_counts_example :
    (stored_navigation_counts reads_entry "/horizon" 2000
      (store_navigation_counts prints "/horizon" counts 1000 empty_storage)).1
    ≡ (if ltb 2000 301000 then some counts else none)
stored-store_navigation_counts_example =
    stored-store_navigation_counts reads_entry prints "/horizon" counts 1000 2000 empty_storage
      counts_complete refl refl refl

stored_navigation_counts-AreCounts_example :
    AreCounts
      (stored_navigation_counts reads_entry "/horizon" 2000
        (store_navigation_counts prints "/horizon" counts 1000 empty_storage)).1
stored_navigation_counts-AreCounts_example =
    stored_navigation_counts-AreCounts reads_entry "/horizon" 2000
      (store_navigation_counts prints "/horizon" counts 1000 empty_storage)
