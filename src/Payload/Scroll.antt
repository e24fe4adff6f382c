-- ===== src/Payload/Scroll.antt =====
-- resources/js/components/payload/json-payload.tsx: `preserveTogglePosition`, which keeps the window where it is
-- when a container of the tree is opened or closed. Positions of the window are in thousandths of a pixel,
-- heights of elements are whole pixels.
use horizon_new_dawn.Base.{
  ℕ, ◌+◌, ◌-◌, ◌*◌, ◌/◌, ◌≤◌, Bool, true, false, ◌≡◌, refl, sym, ◌∙◌, Option, none, some, List, [],
  ◌∷◌, arith, ltb, if◌then◌else◌, ◌&&◌, ◌++◌, remove, nat_eq,
}

-- `document.scrollingElement` and the window: the height of what is in the document besides the spacer.
pub record Document : Type 0 where
  pub content_height : ℕ
  pub spacer_height : ℕ
  pub client_height : ℕ
  pub scroll_left : ℕ
  pub scroll_top : ℕ

-- `scrollHeight`: at least the height of the window.
abbrev pub scroll_height : Document → ℕ
scroll_height d =
    let height = d.content_height + d.spacer_height in
    if ltb height d.client_height then d.client_height else height

-- `window.scrollTo` goes no further down than the end of the document. The document does not scroll to the side.
abbrev pub scroll_to : ℕ → ℕ → Document → Document
scroll_to left top d =
    let last = (scroll_height d - d.client_height) * 1000 in
    record d { scroll_left = left; scroll_top = if ltb last top then last else top }

-- The refs of the component. A trigger is a number.
pub record Refs : Type 0 where
  pub pending_frame : Option ℕ
  pub pending_trigger : Option ℕ
  pub pending_scroll_left : ℕ
  pub pending_scroll_top : ℕ

-- The component with the callbacks that the browser will run, which it numbers.
pub record State : Type 0 where
  pub refs : Refs
  pub document : Document
  pub frames : List ℕ
  pub next_frame : ℕ

-- What the body of the frame finds: the spacer, the scrolling element, and the trigger in the document.
pub record Found : Type 0 where
  pub has_spacer : Bool
  pub has_scrolling_element : Bool
  pub is_connected : Bool

pub data Event : Type 0 where
  toggle : ℕ → Event
  resize : ℕ → Event
  frame : Found → Event

abbrev pub cancelled : Option ℕ → List ℕ → List ℕ
cancelled none frames = frames
cancelled (some f) frames = remove f frames

unfoldable pub preserve_toggle_position : ℕ → State → State
unfolding remove
preserve_toggle_position trigger s = record s {
  refs = record {
    pending_frame = some s.next_frame;
    pending_trigger = some trigger;
    pending_scroll_left = s.document.scroll_left;
    pending_scroll_top = s.document.scroll_top;
  };
  frames = cancelled s.refs.pending_frame s.frames ++ (s.next_frame ∷ []);
  next_frame = s.next_frame + 1;
}

-- `Math.ceil(Math.max(0, scrollTop + clientHeight - documentHeightWithoutSpacer))`
unfoldable pub required_spacer_height : ℕ → Document → ℕ
required_spacer_height top d =
    let document_height_without_spacer = scroll_height d - d.spacer_height in
    (top + d.client_height * 1000 - document_height_without_spacer * 1000 + 999) / 1000

abbrev pub has_trigger : Option ℕ → Bool
has_trigger none = false
has_trigger (some t) = true

unfoldable pub on_frame : Found → Refs → Document → Document
unfolding required_spacer_height
on_frame found refs d =
    if has_trigger refs.pending_trigger
      && (found.has_spacer && (found.has_scrolling_element && found.is_connected))
    then scroll_to refs.pending_scroll_left refs.pending_scroll_top
        (record d { spacer_height = required_spacer_height refs.pending_scroll_top d })
    else d

-- The browser runs the oldest callback, if there is one.
abbrev pub run_frame : Found → State → List ℕ → State
unfolding on_frame
run_frame found s [] = s
run_frame found s (f ∷ frames) = record s {
  refs = record s.refs { pending_frame = none };
  document = on_frame found s.refs s.document;
  frames = frames;
}

unfoldable pub step : Event → State → State
unfolding preserve_toggle_position on_frame
step (toggle trigger) s = preserve_toggle_position trigger s
step (resize height) s =
    let d = record s.document { content_height = height } in
    record s { document = scroll_to d.scroll_left d.scroll_top d }
step (frame found) s = run_frame found s s.frames

unfoldable pub run : List Event → State → State
unfolding step
run [] s = s
run (e ∷ es) s = run es (step e s)

abbrev pending : Option ℕ → List ℕ
pending none = []
pending (some f) = f ∷ []

-- The only callback that the browser has is the one that the component knows.
abbrev pub HasOneFrame : State → Type 0
HasOneFrame s = s.frames ≡ pending s.refs.pending_frame

remove_pending : (f : Option ℕ) (frames : List ℕ) → frames ≡ pending f → cancelled f frames ≡ []
unfolding remove nat_eq
remove_pending none frames h = h
remove_pending (some f) frames h = rw h (ground arith)

tail_of_pending : (f : ℕ) (frames : List ℕ) (o : Option ℕ) → f ∷ frames ≡ pending o → frames ≡ []
tail_of_pending f frames none h = cc
tail_of_pending f frames (some g) h = cc

frame-HasOneFrame :
    (found : Found) (s : State) (frames : List ℕ)
    → s.frames ≡ frames
    → HasOneFrame s
    → HasOneFrame (run_frame found s frames)
unfolding run_frame
frame-HasOneFrame found s [] e h = h
frame-HasOneFrame found s (f ∷ frames) e h =
    tail_of_pending f frames s.refs.pending_frame (sym e ∙ h)

step-HasOneFrame : (e : Event) (s : State) → HasOneFrame s → HasOneFrame (step e s)
unfolding step
step-HasOneFrame (toggle trigger) s h = rw (remove_pending s.refs.pending_frame s.frames h) refl
step-HasOneFrame (resize height) s h = h
step-HasOneFrame (frame found) s h = frame-HasOneFrame found s s.frames refl h

run-HasOneFrame : (es : List Event) (s : State) → HasOneFrame s → HasOneFrame (run es s)
unfolding run
run-HasOneFrame [] s h = h
run-HasOneFrame (e ∷ es) s h = run-HasOneFrame es (step e s) (step-HasOneFrame e s h)

not_less : (a b : ℕ) → a ≤ b → ltb b a ≡ false
not_less a b h = ground arith

-- With the new spacer the document reaches as far down as the window did.
required_spacer_enough :
    (top : ℕ) (d : Document)
    → d.client_height ≤ d.content_height + d.spacer_height
    → top ≤ (d.content_height + required_spacer_height top d - d.client_height) * 1000
unfolding required_spacer_height
required_spacer_enough top d h =
    rw (not_less d.client_height (d.content_height + d.spacer_height) h) (omega (arith, h))

scroll_to_within :
    (left top : ℕ) (d : Document)
    → top ≤ (d.content_height + d.spacer_height - d.client_height) * 1000
    → (scroll_to left top d).scroll_top ≡ top
scroll_to_within left top d h = ground (arith, h)

-- The position to which the frame scrolls, when it finds everything.
on_frame_scrolls :
    (found : Found) (refs : Refs) (d : Document)
    → has_trigger refs.pending_trigger ≡ true
    → found.has_spacer ≡ true
    → found.has_scrolling_element ≡ true
    → found.is_connected ≡ true
    → d.client_height ≤ d.content_height + d.spacer_height
    → (on_frame found refs d).scroll_top ≡ refs.pending_scroll_top
unfolding on_frame
on_frame_scrolls found refs d t a b c h =
    let wide = record d { spacer_height = required_spacer_height refs.pending_scroll_top d } in
    rw (t, a, b, c)
      (scroll_to_within refs.pending_scroll_left refs.pending_scroll_top wide
        (required_spacer_enough refs.pending_scroll_top d h))

-- A container is opened or closed, the document becomes taller or shorter, and the frame is drawn: the window
-- is where it was, if the frame finds what it needs, no other callback was waiting than the one that the
-- component knows, and the document with the old spacer is not shorter than the window.
pub toggle_keeps_position :
    (s : State) (trigger height : ℕ) (found : Found)
    → HasOneFrame s
    → found.has_spacer ≡ true
    → found.has_scrolling_element ≡ true
    → found.is_connected ≡ true
    → s.document.client_height ≤ height + s.document.spacer_height
    → (run (toggle trigger ∷ resize height ∷ frame found ∷ []) s).document.scroll_top
      ≡ s.document.scroll_top
unfolding run preserve_toggle_position
toggle_keeps_position s trigger height found one a b c h =
    rw (remove_pending s.refs.pending_frame s.frames one) (
      on_frame_scrolls found (step (toggle trigger) s).refs
        (run (toggle trigger ∷ resize height ∷ []) s).document refl a b c h)
