-- ===== src/Payload/Text.antt =====
-- JavaScript strings as resources/js/components/payload/json-payload.tsx cuts them: lists of UTF-16 code units.
use Prim.Native.Char.{code}
use horizon_new_dawn.Base.{
  ℕ, zero, suc, ◌+◌, ◌-◌, ◌/◌, ◌%◌, ◌≤◌, String, Bool, true, false, ◌&&◌, ◌≡◌, refl, ap, sym, ◌∙◌,
  List, [], ◌∷◌, ◌++◌, arith, ltb, length, if◌then◌else◌, ◌==◌, nat_eq,
}

abbrev pub Units : Type 0
Units = List ℕ

abbrev pub units_of_code : ℕ → Units
units_of_code c =
    if ltb c 0x10000
    then c ∷ []
    else (0xd800 + (c - 0x10000) / 0x400) ∷ (0xdc00 + (c - 0x10000) % 0x400) ∷ []

unfoldable pub units : String → Units
units String.[] = []
units (String.◌∷◌ c s) = units_of_code (code c) ++ units s

-- `s.slice(0, n)` and `s.slice(n)`, for n at least 0.
unfoldable pub take : ℕ → Units → Units
take zero s = []
take (suc n) [] = []
take (suc n) (c ∷ s) = c ∷ take n s

unfoldable pub drop : ℕ → Units → Units
drop zero s = s
drop (suc n) [] = []
drop (suc n) (c ∷ s) = drop n s

unfoldable pub starts_with : Units → Units → Bool
starts_with [] s = true
starts_with (c ∷ w) [] = false
starts_with (c ∷ w) (d ∷ s) = (c == d) && starts_with w s

pub take-drop : (n : ℕ) (s : Units) → take n s ++ drop n s ≡ s
unfolding take drop
take-drop zero s = refl
take-drop (suc n) [] = refl
take-drop (suc n) (c ∷ s) = ap (λ rest. c ∷ rest) (take-drop n s)

drop_empty : (n : ℕ) → drop n [] ≡ []
unfolding drop
drop_empty zero = refl
drop_empty (suc n) = refl

plus_suc : (n m : ℕ) → suc (n + m) ≡ suc n + m
plus_suc n m = omega arith

pub drop-drop : (m n : ℕ) (s : Units) → drop m (drop n s) ≡ drop (n + m) s
unfolding drop
drop-drop m zero s = ap (λ k. drop k s) (omega arith)
drop-drop m (suc n) [] = drop_empty m ∙ sym (drop_empty (suc n + m))
drop-drop m (suc n) (c ∷ s) = drop-drop m n s ∙ ap (λ k. drop k (c ∷ s)) (plus_suc n m)

pub drop_past : (n : ℕ) (s : Units) → length s ≤ n → drop n s ≡ []
unfolding drop
drop_past zero [] h = refl
drop_past zero (c ∷ s) h = grind arith
drop_past (suc n) [] h = refl
drop_past (suc n) (c ∷ s) h = drop_past n s (omega (arith, h))
