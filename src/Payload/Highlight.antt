-- ===== src/Payload/Highlight.antt =====
-- resources/js/components/payload/json-payload.tsx: `highlightedJson`.
use horizon_new_dawn.Base.{
  ℕ, zero, suc, ◌+◌, ◌-◌, ◌≤◌, Bool, false, ◌≡◌, refl, ap, sym, ◌∙◌, Option, none, some, List, [],
  ◌∷◌, ◌++◌, arith, ltb, length, by_test, if◌then◌else◌, ◌==◌, nat_eq,
}
use horizon_new_dawn.Jobs.Trim.{is_space}
use horizon_new_dawn.Payload.Text.{Units, take, drop, take-drop, drop-drop, drop_past}
use horizon_new_dawn.Payload.Token.{starts, is_punctuation, match_at, found, matches}

pub data Color : Type 0 where
  key string punctuation number : Color

pub data Node : Type 0 where
  plain : Units → Node
  token : Color → Units → Node

-- `remainder.trimStart()`
unfoldable pub trim_units : Units → Units
trim_units [] = []
trim_units (c ∷ s) = let rest = trim_units s in if is_space c then rest else c ∷ s

-- `/^[{}[\],:]$/.test(token)`
abbrev pub is_one_punctuation : Units → Bool
is_one_punctuation (c ∷ []) = is_punctuation c
is_one_punctuation s = false

unfoldable pub color_of : Units → Units → Color
unfolding trim_units is_punctuation
color_of tok remainder =
    if starts (λ c. c == 34) tok
    then if starts (λ c. c == 58) (trim_units remainder) then key else string
    else if is_one_punctuation tok
    then punctuation
    else number

-- The loop over the matches, at a cursor, and what is left after it.
unfoldable pub highlight : Units → ℕ → List (ℕ × ℕ) → List Node
unfolding take drop color_of
highlight contents cursor [] =
    if ltb cursor (length contents) then plain (drop cursor contents) ∷ [] else []
highlight contents cursor ((index, size) ∷ later) =
    let tok = take size (drop index contents) in
    let remainder = drop (index + size) contents in
    let rest = token (color_of tok remainder) tok ∷ highlight contents (index + size) later in
    if ltb cursor index then plain (take (index - cursor) (drop cursor contents)) ∷ rest else rest

unfoldable pub highlighted_json : Units → List Node
unfolding highlight matches
highlighted_json contents = highlight contents 0 (matches 0 0 contents)

-- What is to be seen of the nodes.
unfoldable pub text_of : List Node → Units
text_of [] = []
text_of (plain s ∷ nodes) = s ++ text_of nodes
text_of (token color s ∷ nodes) = s ++ text_of nodes

-- Every match begins where the one before it has ended, or later.
abbrev InOrder : ℕ → List (ℕ × ℕ) → Type 0
InOrder cursor [] = Unit
InOrder cursor ((index, size) ∷ later) = (cursor ≤ index) × InOrder (index + size) later

earlier-InOrder : (a b : ℕ) (ms : List (ℕ × ℕ)) → a ≤ b → InOrder b ms → InOrder a ms
earlier-InOrder a b [] h o = tt
earlier-InOrder a b ((index, size) ∷ later) h (l, o) = (omega (arith, h, l), o)

found-InOrder :
    (index : ℕ) (later : ℕ → List (ℕ × ℕ)) (m : Option ℕ)
    → ((k : ℕ) → InOrder (index + 1 + k) (later k))
    → InOrder index (found index later m)
found-InOrder index later none h =
    earlier-InOrder index (index + 1 + 0) (later 0) (omega arith) (h 0)
found-InOrder index later (some n) h = (
  omega arith,
  earlier-InOrder (index + n) (index + 1 + (n - 1)) (later (n - 1)) (omega arith) (h (n - 1)),
)

matches-InOrder :
    (index skipped : ℕ) (s : Units) → InOrder (index + skipped) (matches index skipped s)
unfolding matches
matches-InOrder index skipped [] = tt
matches-InOrder index (suc k) (c ∷ s) =
    earlier-InOrder (index + suc k) (index + 1 + k) (matches (index + 1) k s) (omega arith)
      (matches-InOrder (index + 1) k s)
matches-InOrder index zero (c ∷ s) =
    earlier-InOrder (index + 0) index
      (found index (λ k. matches (index + 1) k s) (match_at (c ∷ s))) (omega arith)
      (found-InOrder index (λ k. matches (index + 1) k s) (match_at (c ∷ s))
        (λ k. matches-InOrder (index + 1) k s))

-- A text from a cursor on is the part before an index and the text from the index on.
cut :
    (contents : Units) (cursor index : ℕ)
    → cursor ≤ index
    → take (index - cursor) (drop cursor contents) ++ drop index contents ≡ drop cursor contents
cut contents cursor index h =
    ap (λ rest. take (index - cursor) (drop cursor contents) ++ rest)
      (sym
        (drop-drop (index - cursor) cursor contents ∙ ap (λ k. drop k contents) (omega (arith, h))))
    ∙ take-drop (index - cursor) (drop cursor contents)

not_lt : (a b : ℕ) → ltb a b ≡ false → b ≤ a
not_lt a b h = ground arith

≤-antisym : (a b : ℕ) → b ≤ a → a ≤ b → a ≡ b
≤-antisym a b h k = omega (arith, h, k)

append-nil : (s : Units) → s ++ [] ≡ s
append-nil [] = refl
append-nil (c ∷ s) = ap (λ rest. c ∷ rest) (append-nil s)

text_of-highlight :
    (contents : Units) (cursor : ℕ) (ms : List (ℕ × ℕ))
    → InOrder cursor ms
    → text_of (highlight contents cursor ms) ≡ drop cursor contents
unfolding text_of highlight
text_of-highlight contents cursor [] o =
    by_test (λ nodes. text_of nodes ≡ drop cursor contents) (ltb cursor (length contents))
      (λ more. append-nil (drop cursor contents))
      (λ end. sym (drop_past cursor contents (not_lt cursor (length contents) end)))
text_of-highlight contents cursor ((index, size) ∷ later) (l, o) =
    let from_index =
      ap (λ rest. take size (drop index contents) ++ rest)
        (text_of-highlight contents (index + size) later o ∙ sym (drop-drop size index contents))
      ∙ take-drop size (drop index contents) in
    by_test (λ nodes. text_of nodes ≡ drop cursor contents) (ltb cursor index)
      (λ gap.
        ap (λ rest. take (index - cursor) (drop cursor contents) ++ rest) from_index
        ∙ cut contents cursor index l)
      (λ none_between.
        from_index
        ∙ ap (λ k. drop k contents) (≤-antisym index cursor l (not_lt cursor index none_between)))

-- The nodes of a highlighted text, whatever it is, show the whole text and nothing else.
pub text_of-highlighted_json : (contents : Units) → text_of (highlighted_json contents) ≡ contents
unfolding highlighted_json drop
text_of-highlighted_json contents =
    text_of-highlight contents 0 (matches 0 0 contents) (matches-InOrder 0 0 contents)
