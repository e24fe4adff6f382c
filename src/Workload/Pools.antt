-- ===== src/Workload/Pools.antt =====
-- `poolQueues` and `formatPoolLabel` of resources/js/components/dashboard/workload-table.tsx. The text of a
-- number is a parameter.
use Prim.Native.Char.{Char, code}
use text.Mathlib.TextLemmas.{nil-append, cons-append, append_assoc}
use horizon_new_dawn.Base.{
  ℕ, ◌-◌, String, ◌<>◌, Bool, true, false, not, ◌||◌, ◌≡◌, refl, ap, sym, ◌∙◌, Option, none, some,
  List, [], ◌∷◌, map, arith, leb, length, keep, All, if◌then◌else◌, ◌==◌, nat_eq, by_test,
}
use horizon_new_dawn.Jobs.Trim.{trim, trim_start, trim_end, trim_idem, is_empty, is_space}

abbrev pub is_comma : Char → Bool
is_comma c = code c == 44

-- A character before the first of the pieces.
abbrev pub onto : Char → List String → List String
onto c [] = String.◌∷◌ c String.[] ∷ []
onto c (piece ∷ pieces) = String.◌∷◌ c piece ∷ pieces

-- `name.split(",")`
unfoldable pub split : String → List String
split String.[] = String.[] ∷ []
split (String.◌∷◌ c s) = let rest = split s in if is_comma c then String.[] ∷ rest else onto c rest

abbrev pub is_named : String → Bool
is_named s = not (is_empty s)

unfoldable pub pool_queues : String → List String
unfolding split trim keep
pool_queues name = keep is_named (map trim (split name))

-- `queues.join(", ")`
unfoldable pub join : List String → String
join [] = String.[]
join (q ∷ []) = q
join (q ∷ r ∷ qs) = q <> (", " <> join (r ∷ qs))

pub record PoolLabel : Type 0 where
  pub label : String
  pub full_list : Option String

-- The label of the pool's queues.
abbrev pub label_of : (ℕ → String) → String → List String → PoolLabel
label_of show name [] = record { label = name; full_list = none }
label_of show name (a ∷ []) = record { label = name; full_list = none }
label_of show name (a ∷ b ∷ queues) =
    let full_list = join (a ∷ b ∷ queues) in
    if leb (length (a ∷ b ∷ queues)) 3
    then record { label = full_list; full_list = none }
    else record {
      label = a <> (", " <> (b <> (", +" <> show (length (a ∷ b ∷ queues) - 2))));
      full_list = some full_list;
    }

unfoldable pub format_pool_label : (ℕ → String) → String → PoolLabel
unfolding pool_queues join
format_pool_label show name = label_of show name (pool_queues name)

-- What names the pool in full: the list that the label's tooltip has, or the label.
unfoldable pub full_name : PoolLabel → String
full_name l = elim l.full_list [ none ↦ l.label | some full ↦ full ]

abbrev has_comma : String → Bool
has_comma String.[] = false
has_comma (String.◌∷◌ c s) = is_comma c || has_comma s

-- A queue's name, as `poolQueues` returns it.
abbrev IsQueue : String → Type 0
IsQueue q = (has_comma q ≡ false) × (trim q ≡ q) × (is_named q ≡ true)

abbrev NoComma : String → Type 0
NoComma s = has_comma s ≡ false

onto-NoComma :
    (c : Char) (pieces : List String)
    → is_comma c ≡ false
    → All NoComma pieces
    → All NoComma (onto c pieces)
onto-NoComma c [] h a = (ground arith, tt)
onto-NoComma c (piece ∷ pieces) h (p, a) = (rw (h, p) refl, a)

split-NoComma : (s : String) → All NoComma (split s)
unfolding split
split-NoComma String.[] = (refl, tt)
split-NoComma (String.◌∷◌ c s) =
    by_test (All NoComma) (is_comma c) (λ comma. (refl, split-NoComma s))
      (λ other. onto-NoComma c (split s) other (split-NoComma s))

trim_start-NoComma : (s : String) → NoComma s → NoComma (trim_start s)
unfolding trim_start
trim_start-NoComma String.[] h = refl
trim_start-NoComma (String.◌∷◌ c s) h = ground (arith, trim_start-NoComma s)

trim_end-NoComma : (s : String) → NoComma s → NoComma (trim_end s)
unfolding trim_end
trim_end-NoComma String.[] h = refl
trim_end-NoComma (String.◌∷◌ c s) h = ground (arith, trim_end-NoComma s)

trim-NoComma : (s : String) → NoComma s → NoComma (trim s)
unfolding trim
trim-NoComma s h = trim_end-NoComma (trim_start s) (trim_start-NoComma s h)

trimmed-IsQueue :
    (pieces : List String) → All NoComma pieces → All IsQueue (keep is_named (map trim pieces))
unfolding keep
trimmed-IsQueue [] a = tt
trimmed-IsQueue (piece ∷ pieces) (p, a) =
    by_test (All IsQueue) (is_named (trim piece))
      (λ named. ((trim-NoComma piece p, trim_idem piece, named), trimmed-IsQueue pieces a))
      (λ blank. trimmed-IsQueue pieces a)

pool_queues-IsQueue : (name : String) → All IsQueue (pool_queues name)
unfolding pool_queues
pool_queues-IsQueue name = trimmed-IsQueue (split name) (split-NoComma name)

other_first : (c : Char) (s : String) → NoComma (String.◌∷◌ c s) → (is_comma c ≡ false) × NoComma s
other_first c s h = (ground arith, ground arith)

split_comma : (s : String) → split ("," <> s) ≡ "" ∷ split s
unfolding split nat_eq
split_comma s = ap split (cons-append "," "" s ∙ ap (λ rest. String.◌∷◌ "," rest) (nil-append s))

spaced : (q : String) → " " <> q ≡ String.◌∷◌ " " q
spaced q = cons-append " " "" q ∙ ap (λ rest. String.◌∷◌ " " rest) (nil-append q)

-- A piece without a comma ends at the comma behind it.
split_piece : (p s : String) → NoComma p → split (p <> ("," <> s)) ≡ p ∷ split s
unfolding split nat_eq
split_piece String.[] s h = ap split (nil-append ("," <> s)) ∙ split_comma s
split_piece (String.◌∷◌ c p) s h =
    let (other, rest) = other_first c p h in
    ap split (cons-append c p ("," <> s)) ∙ rw other (ap (onto c) (split_piece p s rest))

split_last : (p : String) → NoComma p → split p ≡ p ∷ []
unfolding split
split_last String.[] h = refl
split_last (String.◌∷◌ c p) h =
    let (other, rest) = other_first c p h in rw other (ap (onto c) (split_last p rest))

-- A piece, with or without a space before it, that is trimmed to a queue's name.
abbrev IsPiece : String → String → Type 0
IsPiece p q = NoComma p × (trim p ≡ q)

spaced-IsPiece : (q : String) → IsQueue q → IsPiece (" " <> q) q
unfolding trim trim_start is_space nat_eq
spaced-IsPiece q (no_comma, trimmed, named) = rw (spaced q) (no_comma, trimmed)

pool_queues_last : (p q : String) → IsPiece p q → IsQueue q → pool_queues p ≡ q ∷ []
unfolding pool_queues
pool_queues_last p q (no_comma, trims) (_, _, named) = rw (split_last p no_comma, trims, named) refl

pool_queues_piece :
    (p q s : String) → IsPiece p q → IsQueue q → pool_queues (p <> ("," <> s)) ≡ q ∷ pool_queues s
unfolding pool_queues
pool_queues_piece p q s (no_comma, trims) (_, _, named) =
    rw (split_piece p s no_comma, trims, named) refl

separated : (s : String) → ", " <> s ≡ "," <> (" " <> s)
separated s = append_assoc "," " " s

pool_queues-join :
    (q : String) (qs : List String)
    → All IsQueue (q ∷ qs)
    → (pool_queues (join (q ∷ qs)) ≡ q ∷ qs) × (pool_queues (" " <> join (q ∷ qs)) ≡ q ∷ qs)
unfolding join
pool_queues-join q [] (h, _) =
    (pool_queues_last q q (h.0, h.1) h, pool_queues_last (" " <> q) q (spaced-IsPiece q h) h)
pool_queues-join q (r ∷ qs) (h, a) =
    let later = (pool_queues-join r qs a).1 in
    let tail = join (r ∷ qs) in
    (
      ap (λ s. pool_queues (q <> s)) (separated tail)
          ∙ (pool_queues_piece q q (" " <> tail) (h.0, h.1) h ∙ ap (λ rest. q ∷ rest) later),
      ap pool_queues (sym (append_assoc " " q (", " <> tail)))
          ∙ (ap (λ s. pool_queues ((" " <> q) <> s)) (separated tail)
              ∙ (pool_queues_piece (" " <> q) q (" " <> tail) (spaced-IsPiece q h) h
                  ∙ ap (λ rest. q ∷ rest) later)),
    )

full_name_lem :
    (show : ℕ → String) (name : String) (queues : List String)
    → All IsQueue queues
    → pool_queues name ≡ queues
    → pool_queues (full_name (label_of show name queues)) ≡ queues
unfolding full_name
full_name_lem show name [] a e = e
full_name_lem show name (q ∷ []) a e = e
full_name_lem show name (q ∷ r ∷ queues) a e =
    by_test (λ l. pool_queues (full_name l) ≡ q ∷ r ∷ queues) (leb (length (q ∷ r ∷ queues)) 3)
      (λ few. (pool_queues-join q (r ∷ queues) a).0) (λ many. (pool_queues-join q (r ∷ queues) a).0)

-- The full name that a row shows for a pool, as its label or behind it, is read as the same queues in the same
-- order as the pool's name, whatever spaces and empty parts that has.
pub pool_queues-format_pool_label :
    (show : ℕ → String) (name : String)
    → pool_queues (full_name (format_pool_label show name)) ≡ pool_queues name
unfolding format_pool_label
pool_queues-format_pool_label show name =
    full_name_lem show name (pool_queues name) (pool_queues-IsQueue name) refl
