-- ===== src/Payload/Serialize.antt =====
-- resources/js/components/payload/json-payload.tsx: the tree of a payload beside `JSON.stringify(value, null, 4)`,
-- which is defined here as ECMA-262 says (SerializeJSONProperty, SerializeJSONObject, SerializeJSONArray).

use horizon_new_dawn.Base.{ℕ, suc, String, List, [], ◌∷◌, ◌++◌, nat_eq}
use horizon_new_dawn.Json.{Json, array, object, Items, Fields, empty, field}
use horizon_new_dawn.Payload.Text.{Units, units}
use horizon_new_dawn.Payload.Highlight.{text_of}
use horizon_new_dawn.Payload.Tree.{Printer, Tree, Trees, block, collapsible, indentation, scalar}

abbrev pub newline : Units
newline = 10 ∷ []

-- The parts with a separator between them.
abbrev pub join : Units → List Units → Units
join separator [] = []
join separator (x ∷ []) = x
join separator (x ∷ y ∷ rest) = x ++ (separator ++ join separator (y ∷ rest))

-- The parts of a container at a depth, one to a line, between its delimiters.
abbrev pub bracket : String → String → ℕ → List Units → Units
bracket opening closing depth [] = units opening ++ units closing
bracket opening closing depth parts =
    units opening
    ++ (newline
        ++ (indentation (suc depth)
            ++ (join (units "," ++ (newline ++ indentation (suc depth))) parts
                ++ (newline ++ (indentation depth ++ units closing)))))

unfoldable mutual
  pub serialize : Printer → ℕ → Json → Units
  serialize p depth (array items) = bracket "[" "]" depth (elements p (suc depth) items)
  serialize p depth (object fields) = bracket "{" "}" depth (members p (suc depth) fields)
  serialize p depth value = scalar p value

  pub elements : Printer → ℕ → Items → List Units
  elements p depth Items.nil = []
  elements p depth (Items.cons v vs) = serialize p depth v ∷ elements p depth vs

  pub members : Printer → ℕ → Fields → List Units
  members p depth empty = []
  members p depth (field k v vs) =
      (p.quoted k ++ (units ": " ++ serialize p depth v)) ∷ members p depth vs

-- The text of a tree whose containers are open, as they are at first: every line behind a line break.
unfoldable mutual
  unfolding text_of

  pub lines : Tree → Units
  lines (block line) = newline ++ text_of line
  lines (collapsible indent trigger children closing) =
      newline
      ++ (indent ++ (text_of trigger.shown ++ (all_lines children ++ (newline ++ text_of closing))))

  pub all_lines : Trees → Units
  all_lines Trees.nil = []
  all_lines (Trees.cons t ts) = lines t ++ all_lines ts
