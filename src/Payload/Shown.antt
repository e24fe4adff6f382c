-- ===== src/Payload/Shown.antt =====
-- What the tree of a payload shows is what `JSON.stringify(value, null, 4)` prints
-- (resources/js/components/payload/json-payload.tsx).
use mathlib.Core.List.{append_assoc}
use horizon_new_dawn.Base.{
  ℕ, suc, ◌+◌, ◌-◌, String, Bool, true, false, ◌≡◌, refl, ap, sym, ◌∙◌, Option, none, some, List,
  [], ◌∷◌, ◌++◌, arith, ltb, if◌then◌else◌, nat_eq,
}
use horizon_new_dawn.Json.{
  Json, null, boolean, number, text, array, object, Items, Fields, empty, field,
}
use horizon_new_dawn.Payload.Text.{Units, units}
use horizon_new_dawn.Payload.Highlight.{plain, token, text_of}
use horizon_new_dawn.Payload.Tree.{
  Printer, Line, indentation, scalar, comma, property_name, scalar_node, empty_node, items_length,
  fields_length, json_node, item_nodes, field_nodes,
}
use horizon_new_dawn.Payload.Serialize.{
  newline, join, bracket, serialize, elements, members, lines, all_lines,
}

pub append-nil : (s : Units) → s ++ [] ≡ s
append-nil [] = refl
append-nil (c ∷ s) = ap (λ rest. c ∷ rest) (append-nil s)

text_of-append : (a b : Line) → text_of (a ++ b) ≡ text_of a ++ text_of b
unfolding text_of
text_of-append [] b = refl
text_of-append (plain s ∷ a) b =
    ap (λ rest. s ++ rest) (text_of-append a b) ∙ sym (append_assoc s (text_of a) (text_of b))
text_of-append (token c s ∷ a) b =
    ap (λ rest. s ++ rest) (text_of-append a b) ∙ sym (append_assoc s (text_of a) (text_of b))

abbrev name_text : Printer → Option String → Units
name_text p none = []
name_text p (some k) = p.quoted k ++ units ": "

abbrev comma_text : Bool → Units
comma_text trailing = if trailing then units "," else []

named :
    (p : Printer) (name : Option String) (rest : Line)
    → text_of (property_name p name ++ rest) ≡ name_text p name ++ text_of rest
unfolding text_of
named p none rest = refl
named p (some k) rest = sym (append_assoc (p.quoted k) (units ": ") (text_of rest))

text_of-comma : (trailing : Bool) → text_of (comma trailing) ≡ comma_text trailing
unfolding text_of units
text_of-comma true = refl
text_of-comma false = refl

-- What a node shows: a line break, the indentation, the name, the value and the comma.
abbrev pub Shows : Printer → Json → ℕ → Option String → Option ℕ → Bool → Type 0
Shows p v depth name item trailing =
    lines (json_node p v depth name item trailing)
    ≡ newline
      ++ (indentation depth ++ (name_text p name ++ (serialize p depth v ++ comma_text trailing)))

lines-scalar_node :
    (p : Printer) (v : Json) (depth : ℕ) (name : Option String) (trailing : Bool)
    → lines (scalar_node p v depth name trailing)
      ≡ newline ++ (indentation depth ++ (name_text p name ++ (scalar p v ++ comma_text trailing)))
unfolding lines text_of
lines-scalar_node p v depth name trailing = rw (named p name _, text_of-comma trailing) refl

lines-empty_node :
    (p : Printer) (opening closing : String) (depth : ℕ) (name : Option String) (trailing : Bool)
    → lines (empty_node p opening closing depth name trailing)
      ≡ newline
        ++ (indentation depth
            ++ (name_text p name ++ ((units opening ++ units closing) ++ comma_text trailing)))
unfolding lines text_of
lines-empty_node p opening closing depth name trailing =
    rw
      (
        named p name _,
        text_of-comma trailing,
        append_assoc (units opening) (units closing) (comma_text trailing),
      )
      refl

-- The separator of the parts at a depth.
abbrev separator : ℕ → Units
separator depth = units "," ++ (newline ++ indentation depth)

-- A line break, the indentation and the parts: what the entries of a container show.
abbrev spread : ℕ → List Units → Units
spread depth [] = []
spread depth (x ∷ parts) = newline ++ (indentation depth ++ join (separator depth) (x ∷ parts))

abbrev more : List Units → Bool
more [] = false
more (x ∷ parts) = true

-- An entry, with a comma if there are more, and the entries after it.
entry_lem :
    (depth : ℕ) (shown pre x part later : Units) (parts : List Units) (trailing : Bool)
    → trailing ≡ more parts
    → shown ≡ newline ++ (indentation depth ++ (pre ++ (x ++ comma_text trailing)))
    → pre ++ x ≡ part
    → later ≡ spread depth parts
    → shown ++ later ≡ spread depth (part ∷ parts)
entry_lem depth shown pre x part later [] trailing h s e l =
    rw (s, h, l, ← e) (simp (append_assoc, append-nil))
entry_lem depth shown pre x part later (y ∷ parts) trailing h s e l =
    rw (s, h, l, ← e) (simp (append_assoc))

bracket_lem :
    (opening closing : String) (depth : ℕ) (pre x : Units) (parts : List Units) (trailing : Bool)
    → newline
        ++ (indentation depth
            ++ ((pre ++ units opening)
                ++ (spread (suc depth) (x ∷ parts)
                    ++ (newline ++ (indentation depth ++ (units closing ++ comma_text trailing))))))
      ≡ newline
        ++ (indentation depth
            ++ (pre ++ (bracket opening closing depth (x ∷ parts) ++ comma_text trailing)))
bracket_lem opening closing depth pre x parts trailing = simp (append_assoc)

module _ (p : Printer) (depth index count : ℕ) where
  items_comma :
      (vs : Items)
      → count ≡ index + suc (items_length vs)
      → ltb index (count - 1) ≡ more (elements p depth vs)
  unfolding elements
  items_comma Items.nil h = ground arith
  items_comma (Items.cons w vs) h = ground arith

  fields_comma :
      (vs : Fields)
      → count ≡ index + suc (fields_length vs)
      → ltb index (count - 1) ≡ more (members p depth vs)
  unfolding members
  fields_comma empty h = ground arith
  fields_comma (field k w vs) h = ground arith

mutual
  unfolding lines text_of serialize json_node

  pub node-Shows :
      (p : Printer) (v : Json) (depth : ℕ) (name : Option String) (item : Option ℕ)
      (trailing : Bool)
      → Shows p v depth name item trailing
  node-Shows p (array Items.nil) depth name item trailing =
      lines-empty_node p "[" "]" depth name trailing
  node-Shows p (array (Items.cons v vs)) depth name item trailing =
      rw
        (
          named p name _,
          text_of-comma trailing,
          all_lines-item_nodes p (Items.cons v vs) (suc depth) 0 (items_length (Items.cons v vs))
              (omega arith),
        )
        (bracket_lem "[" "]" depth (name_text p name) (serialize p (suc depth) v)
          (elements p (suc depth) vs) trailing)
  node-Shows p (object empty) depth name item trailing =
      lines-empty_node p "{" "}" depth name trailing
  node-Shows p (object (field k v vs)) depth name item trailing =
      rw
        (
          named p name _,
          text_of-comma trailing,
          all_lines-field_nodes p (field k v vs) (suc depth) 0 (fields_length (field k v vs))
              (omega arith),
        )
        (bracket_lem "{" "}" depth (name_text p name)
          (p.quoted k ++ (units ": " ++ serialize p (suc depth) v)) (members p (suc depth) vs)
          trailing)
  node-Shows p null depth name item trailing = lines-scalar_node p null depth name trailing
  node-Shows p (boolean b) depth name item trailing =
      lines-scalar_node p (boolean b) depth name trailing
  node-Shows p (number n) depth name item trailing =
      lines-scalar_node p (number n) depth name trailing
  node-Shows p (text s) depth name item trailing = lines-scalar_node p (text s) depth name trailing

  all_lines-item_nodes :
      (p : Printer) (vs : Items) (depth index count : ℕ)
      → count ≡ index + items_length vs
      → all_lines (item_nodes p vs depth index count) ≡ spread depth (elements p depth vs)
  all_lines-item_nodes p Items.nil depth index count h = refl
  all_lines-item_nodes p (Items.cons v vs) depth index count h =
      let trailing = ltb index (count - 1) in
      entry_lem depth (lines (json_node p v depth none (some index) trailing)) []
        (serialize p depth v) (serialize p depth v)
        (all_lines (item_nodes p vs depth (index + 1) count)) (elements p depth vs) trailing
        (items_comma p depth index count vs h) (node-Shows p v depth none (some index) trailing)
        refl (all_lines-item_nodes p vs depth (index + 1) count (omega (arith, h)))

  all_lines-field_nodes :
      (p : Printer) (vs : Fields) (depth index count : ℕ)
      → count ≡ index + fields_length vs
      → all_lines (field_nodes p vs depth index count) ≡ spread depth (members p depth vs)
  all_lines-field_nodes p empty depth index count h = refl
  all_lines-field_nodes p (field k v vs) depth index count h =
      let trailing = ltb index (count - 1) in
      entry_lem depth (lines (json_node p v depth (some k) none trailing))
        (p.quoted k ++ units ": ") (serialize p depth v)
        (p.quoted k ++ (units ": " ++ serialize p depth v))
        (all_lines (field_nodes p vs depth (index + 1) count)) (members p depth vs) trailing
        (fields_comma p depth index count vs h) (node-Shows p v depth (some k) none trailing)
        (append_assoc (p.quoted k) (units ": ") (serialize p depth v))
        (all_lines-field_nodes p vs depth (index + 1) count (omega (arith, h)))
