-- ===== src/Payload/Tree.antt =====
-- resources/js/components/payload/json-payload.tsx: `JsonNode`, as the lines that it shows, and `JsonPayload`.
-- `JSON.stringify` of a text and of a number are parameters.
use horizon_new_dawn.Base.{
  ℕ, zero, suc, ◌+◌, ◌-◌, String, ◌<>◌, Bool, true, false, Option, none, some, List, [], ◌∷◌, ◌++◌,
  ltb, if◌then◌else◌, ◌==◌, nat_eq,
}
use horizon_new_dawn.Base.Int.{ℤ, pos}
use horizon_new_dawn.Json.{Json, boolean, number, text, array, object, Items, Fields, empty, field}
use horizon_new_dawn.Payload.Text.{Units, units}
use horizon_new_dawn.Payload.Highlight.{Color, key, punctuation, Node, plain, token}

pub record Printer : Type 0 where
  pub quoted : String → Units
  pub numeral : ℤ → Units

-- What stands in a line: nodes, as `highlightedJson` has them.
abbrev pub Line : Type 0
Line = List Node

-- The trigger of a container: its accessible name, what it always shows, and what it shows of a closed one.
pub record Trigger : Type 0 where
  pub label : Units
  pub shown : Line
  pub summary : Line

mutual
  pub data Tree : Type 0 where
    block : Line → Tree
    collapsible : Units → Trigger → Trees → Line → Tree

  pub data Trees : Type 0 where
    nil : Trees
    cons : Tree → Trees → Trees

-- `"    ".repeat(depth)`
unfoldable pub indentation : ℕ → Units
unfolding units
indentation zero = []
indentation (suc n) = units "    " ++ indentation n

abbrev pub punct : String → Node
punct s = token punctuation (units s)

abbrev pub comma : Bool → Line
comma trailing = if trailing then punct "," ∷ [] else []

abbrev pub items_length : Items → ℕ
items_length Items.nil = 0
items_length (Items.cons v vs) = suc (items_length vs)

abbrev pub fields_length : Fields → ℕ
fields_length empty = 0
fields_length (field k v vs) = suc (fields_length vs)

module _ (p : Printer) where
  abbrev pub property_name : Option String → Line
  property_name none = []
  property_name (some name) = token key (p.quoted name) ∷ punct ": " ∷ []

  -- `JSON.stringify` of what is neither an array nor an object.
  unfoldable pub scalar : Json → Units
  unfolding units
  scalar (boolean true) = units "true"
  scalar (boolean false) = units "false"
  scalar (number n) = p.numeral n
  scalar (text s) = p.quoted s
  scalar value = units "null"

  abbrev pub scalar_color : Json → Color
  scalar_color (text s) = Color.string
  scalar_color value = Color.number

  abbrev pub scalar_node : Json → ℕ → Option String → Bool → Tree
  scalar_node value depth name trailing = block (
      plain (indentation depth)
      ∷ (property_name name ++ (token (scalar_color value) (scalar value) ∷ comma trailing)))

  abbrev pub empty_node : String → String → ℕ → Option String → Bool → Tree
  empty_node opening closing depth name trailing = block (
      plain (indentation depth)
      ∷ (property_name name ++ (punct opening ∷ punct closing ∷ comma trailing)))

  abbrev pub accessible_name : Option String → Option ℕ → Units
  accessible_name (some name) item = units name
  accessible_name none none = units "Root"
  accessible_name none (some index) = units "Item " ++ p.numeral (pos (index + 1))

  -- The label of a trigger, and what a closed container shows behind its opening delimiter.
  abbrev pub counted : ℕ → String → String → Units
  counted count one many =
      p.numeral (pos count) ++ units (" " <> (if count == 1 then one else many))

  abbrev pub container_node : Json → Trees → ℕ → ℕ → Option String → Option ℕ → Bool → Tree
  container_node (object fields) children count depth name item trailing =
      let entries = counted count "property" "properties" in
      collapsible (indentation depth)
        (record {
          label = accessible_name name item ++ (units " object, " ++ entries);
          shown = property_name name ++ (punct "{" ∷ []);
          summary = punct "…" ∷ punct "}" ∷ (comma trailing ++ (plain entries ∷ []));
        })
        children (plain (indentation depth) ∷ punct "}" ∷ comma trailing)
  container_node value children count depth name item trailing =
      let entries = counted count "item" "items" in
      collapsible (indentation depth)
        (record {
          label = accessible_name name item ++ (units " array, " ++ entries);
          shown = property_name name ++ (punct "[" ∷ []);
          summary = punct "…" ∷ punct "]" ∷ (comma trailing ++ (plain entries ∷ []));
        })
        children (plain (indentation depth) ∷ punct "]" ∷ comma trailing)

-- `JsonNode`: the value, its depth, its property name and its index, and whether a comma follows.
unfoldable mutual
  unfolding indentation scalar

  pub json_node : Printer → Json → ℕ → Option String → Option ℕ → Bool → Tree
  json_node p (array Items.nil) depth name item trailing = empty_node p "[" "]" depth name trailing
  json_node p (array (Items.cons v vs)) depth name item trailing =
      let count = items_length (Items.cons v vs) in
      container_node p (array (Items.cons v vs))
        (item_nodes p (Items.cons v vs) (suc depth) 0 count) count depth name item trailing
  json_node p (object empty) depth name item trailing = empty_node p "{" "}" depth name trailing
  json_node p (object (field k v vs)) depth name item trailing =
      let count = fields_length (field k v vs) in
      container_node p (object (field k v vs)) (field_nodes p (field k v vs) (suc depth) 0 count)
        count depth name item trailing
  json_node p value depth name item trailing = scalar_node p value depth name trailing

  pub item_nodes : Printer → Items → ℕ → ℕ → ℕ → Trees
  item_nodes p Items.nil depth index count = Trees.nil
  item_nodes p (Items.cons v vs) depth index count =
      Trees.cons (json_node p v depth none (some index) (ltb index (count - 1)))
        (item_nodes p vs depth (index + 1) count)

  pub field_nodes : Printer → Fields → ℕ → ℕ → ℕ → Trees
  field_nodes p empty depth index count = Trees.nil
  field_nodes p (field k v vs) depth index count =
      Trees.cons (json_node p v depth (some k) none (ltb index (count - 1)))
        (field_nodes p vs depth (index + 1) count)
