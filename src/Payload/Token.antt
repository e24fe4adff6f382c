-- ===== src/Payload/Token.antt =====
-- resources/js/components/payload/json-payload.tsx: the expression `jsonToken` and its matches in a text.
-- No two of its alternatives begin with the same unit, and within one there is only one way to go on,
-- so that a match is found without going back.
use horizon_new_dawn.Base.{
  ℕ, zero, suc, ◌+◌, ◌-◌, String, Bool, false, not, ◌&&◌, ◌||◌, Option, none, some, List, [], ◌∷◌,
  leb, if◌then◌else◌, ◌==◌, nat_eq,
}
use horizon_new_dawn.Payload.Text.{Units, units, drop, starts_with}

-- What may follow in a string: anything, what an escape stands for, or so many more hexadecimal digits.
pub data Mode : Type 0 where
  inside escaped : Mode
  hex : ℕ → Mode

abbrev pub is_digit : ℕ → Bool
is_digit c = leb 48 c && leb c 57

abbrev pub is_hex : ℕ → Bool
is_hex c = is_digit c || (leb 65 c && leb c 70) || (leb 97 c && leb c 102)

abbrev pub next_hex : ℕ → Mode
next_hex zero = inside
next_hex (suc n) = hex (suc n)

abbrev pub longer : ℕ → Option ℕ → Option ℕ
longer k none = none
longer k (some n) = some (k + n)

-- `(?:\\u[a-fA-F0-9]{4}|\\[^u]|[^\\"])*"`: the length of the match.
unfoldable pub string_rest : Mode → Units → Option ℕ
string_rest mode [] = none
string_rest inside (c ∷ s) =
    let escape = string_rest escaped s in
    let rest = string_rest inside s in
    if c == 34 then some 1 else if c == 92 then longer 1 escape else longer 1 rest
string_rest escaped (c ∷ s) =
    let digits = string_rest (hex 4) s in
    let rest = string_rest inside s in if c == 117 then longer 1 digits else longer 1 rest
string_rest (hex n) (c ∷ s) =
    let rest = string_rest (next_hex (n - 1)) s in if is_hex c then longer 1 rest else none

-- `\d*`
unfoldable pub digits : Units → ℕ
digits [] = 0
digits (c ∷ s) = let rest = digits s in if is_digit c then suc rest else 0

abbrev pub starts : (ℕ → Bool) → Units → Bool
starts p [] = false
starts p (c ∷ s) = p c

-- `(?:\.\d+)?`
unfoldable pub fraction : Units → ℕ
unfolding digits drop
fraction s =
    let n = digits (drop 1 s) in if starts (λ c. c == 46) s && not (n == 0) then 1 + n else 0

-- `(?:[eE][+-]?\d+)?`
unfoldable pub exponent : Units → ℕ
unfolding digits drop
exponent s =
    let sign = if starts (λ c. (c == 43) || (c == 45)) (drop 1 s) then 1 else 0 in
    let n = digits (drop (1 + sign) s) in
    if starts (λ c. (c == 101) || (c == 69)) s && not (n == 0) then 1 + sign + n else 0

-- `-?\d+(?:\.\d+)?(?:[eE][+-]?\d+)?`
unfoldable pub number_match : Units → Option ℕ
unfolding digits fraction exponent drop
number_match s =
    let sign = if starts (λ c. c == 45) s then 1 else 0 in
    let n = digits (drop sign s) in
    let whole = sign + n + fraction (drop (sign + n) s) in
    if n == 0 then none else some (whole + exponent (drop whole s))

-- `[{}[\],:]`
unfoldable pub is_punctuation : ℕ → Bool
is_punctuation c = (c == 123) || (c == 125) || (c == 91) || (c == 93) || (c == 44) || (c == 58)

abbrev pub or_else : Option ℕ → Option ℕ → Option ℕ
or_else none later = later
or_else (some n) later = some n

abbrev pub word_match : String → ℕ → Units → Option ℕ
word_match word n s = if starts_with (units word) s then some n else none

-- The length of a match of `jsonToken` at the beginning of a text.
unfoldable pub match_at : Units → Option ℕ
unfolding string_rest number_match is_punctuation starts_with units drop
match_at s =
    or_else (if starts (λ c. c == 34) s then longer 1 (string_rest inside (drop 1 s)) else none) (
      or_else (number_match s) (
        or_else (word_match "true" 4 s) (
          or_else (word_match "false" 5 s)
            (or_else (word_match "null" 4 s) (if starts is_punctuation s then some 1 else none)))))

abbrev pub found : ℕ → (ℕ → List (ℕ × ℕ)) → Option ℕ → List (ℕ × ℕ)
found index later none = later 0
found index later (some n) = (index, n) ∷ later (n - 1)

-- `contents.matchAll(jsonToken)`: the index and the length of each match in a text that begins at an index,
-- of which so many units belong to the last match.
unfoldable pub matches : ℕ → ℕ → Units → List (ℕ × ℕ)
unfolding match_at
matches index skipped [] = []
matches index (suc k) (c ∷ s) = matches (index + 1) k s
matches index zero (c ∷ s) = found index (λ k. matches (index + 1) k s) (match_at (c ∷ s))
