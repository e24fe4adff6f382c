-- ===== src/Payload/View.antt =====
-- resources/js/components/payload/json-payload.tsx: `JsonPayload`. `JSON.parse` is a parameter.
use horizon_new_dawn.Base.{false, ◌≡◌, refl, ap, ◌∙◌, Option, none, some, List}
use horizon_new_dawn.Json.{Json, null, boolean, number, text, array, object}
use horizon_new_dawn.Payload.Text.{Units, units, drop}
use horizon_new_dawn.Payload.Highlight.{Node, text_of, highlighted_json, text_of-highlighted_json}
use horizon_new_dawn.Payload.Tree
use horizon_new_dawn.Payload.Tree.{Printer, Tree, json_node}
use horizon_new_dawn.Payload.Serialize.{serialize, lines}
use horizon_new_dawn.Payload.Shown.{node-Shows, append-nil}

pub data Body : Type 0 where
  highlighted : List Node → Body
  tree : Tree → Body

-- The block of code has the text that it copies.
pub data View : Type 0 where
  unavailable : View
  code_block : Units → Body → View

module _ (p : Printer) (parse : Units → Option Json) where
  unfoldable pub serialize_json : Json → Units
  unfolding serialize units
  serialize_json (text s) = units s
  serialize_json value = serialize p 0 value

  abbrev pub tree_view : Units → Option Json → Option View
  tree_view contents none = none
  tree_view contents (some value) =
      some (code_block contents (tree (json_node p value 0 none none false)))

  -- none of the result stands for an exception, none of the argument for `undefined`.
  unfoldable pub json_payload : Option Json → Option View
  unfolding serialize_json highlighted_json
  json_payload none = some unavailable
  json_payload (some null) = some unavailable
  json_payload (some (text s)) =
      let contents = serialize_json (text s) in
      some (code_block contents (highlighted (highlighted_json contents)))
  json_payload (some value) =
      let contents = serialize_json value in tree_view contents (parse contents)

-- What a body shows at first, the lines of a tree with line breaks between them.
unfoldable pub shown : Body → Units
unfolding text_of lines drop
shown (highlighted nodes) = text_of nodes
shown (tree t) = drop 1 (lines t)

-- The value is not `null`, and what is printed of it can be parsed again.
abbrev pub Readable : Printer → (Units → Option Json) → Json → Type 0
Readable p parse null = ⊥
Readable p parse (text s) = Unit
Readable p parse value = parse (serialize_json p parse value) ≡ some value

-- There is a block of code that copies the text and shows it.
abbrev pub ShownAsCopied : Units → Option View → Type 0
ShownAsCopied contents none = ⊥
ShownAsCopied contents (some unavailable) = ⊥
ShownAsCopied contents (some (code_block copied body)) = (copied ≡ contents) × (shown body ≡ copied)

shown-tree :
    (p : Printer) (v : Json) → shown (tree (json_node p v 0 none none false)) ≡ serialize p 0 v
unfolding shown drop serialize Tree.indentation
shown-tree p v = ap (drop 1) (node-Shows p v 0 none none false) ∙ append-nil (serialize p 0 v)

-- A payload other than `null`, whose printed text, unless it is a text itself, is parsed to the same value, is
-- shown, and the text on the screen is the text that is copied: the payload itself if it is a text, or what
-- `JSON.stringify` prints of it with an indentation of four spaces.
pub json_payload-ShownAsCopied :
    (p : Printer) (parse : Units → Option Json) (v : Json)
    → Readable p parse v
    → ShownAsCopied (serialize_json p parse v) (json_payload p parse (some v))
unfolding json_payload shown
json_payload-ShownAsCopied p parse null h = elim h [ ]
json_payload-ShownAsCopied p parse (text s) h =
    (refl, text_of-highlighted_json (serialize_json p parse (text s)))
json_payload-ShownAsCopied p parse (boolean b) h = rw h (refl, shown-tree p (boolean b))
json_payload-ShownAsCopied p parse (number n) h = rw h (refl, shown-tree p (number n))
json_payload-ShownAsCopied p parse (array vs) h = rw h (refl, shown-tree p (array vs))
json_payload-ShownAsCopied p parse (object vs) h = rw h (refl, shown-tree p (object vs))
