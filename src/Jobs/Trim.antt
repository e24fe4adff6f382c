-- ===== src/Jobs/Trim.antt =====
-- `String.prototype.trim`, as resources/js/hooks/use-job-query-controls.ts uses it.
use Prim.Native.Char.{code}
use horizon_new_dawn.Base.{
  ℕ, String, Bool, true, false, ◌&&◌, ◌||◌, ◌≡◌, refl, arith, leb, if◌then◌else◌, ◌==◌, nat_eq,
}

-- The white space and line terminators of ECMAScript.
unfoldable pub is_space : ℕ → Bool
is_space c =
    (leb 9 c && leb c 13)
    || (c == 0x20)
    || (c == 0xa0)
    || (c == 0x1680)
    || (leb 0x2000 c && leb c 0x200a)
    || (c == 0x2028)
    || (c == 0x2029)
    || (c == 0x202f)
    || (c == 0x205f)
    || (c == 0x3000)
    || (c == 0xfeff)

unfoldable pub trim_start : String → String
trim_start String.[] = String.[]
trim_start (String.◌∷◌ c s) =
    let rest = trim_start s in if is_space (code c) then rest else String.◌∷◌ c s

abbrev pub is_empty : String → Bool
is_empty String.[] = true
is_empty (String.◌∷◌ c s) = false

unfoldable pub trim_end : String → String
trim_end String.[] = String.[]
trim_end (String.◌∷◌ c s) =
    let rest = trim_end s in
    if is_empty rest && is_space (code c) then String.[] else String.◌∷◌ c rest

unfoldable pub trim : String → String
unfolding trim_start trim_end
trim s = trim_end (trim_start s)

trim_end_idem : (s : String) → trim_end (trim_end s) ≡ trim_end s
unfolding trim_end
trim_end_idem String.[] = refl
trim_end_idem (String.◌∷◌ c s) = ground (arith, trim_end_idem s)

-- The text is empty or begins with no white space.
abbrev Starts : String → Type 0
Starts String.[] = Unit
Starts (String.◌∷◌ c s) = is_space (code c) ≡ false

trim_start-Starts : (s : String) → Starts (trim_start s)
unfolding trim_start
trim_start-Starts String.[] = tt
trim_start-Starts (String.◌∷◌ c s) = ground (arith, trim_start-Starts s)

trim_end-Starts : (s : String) → Starts s → Starts (trim_end s)
unfolding trim_end
trim_end-Starts String.[] h = tt
trim_end-Starts (String.◌∷◌ c s) h = ground arith

trim_start_of_Starts : (s : String) → Starts s → trim_start s ≡ s
unfolding trim_start
trim_start_of_Starts String.[] h = refl
trim_start_of_Starts (String.◌∷◌ c s) h = ground arith

-- Text that is trimmed has no white space left to trim.
pub trim_idem : (s : String) → trim (trim s) ≡ trim s
unfolding trim
trim_idem s =
    let s' = trim_start s in
    rw (trim_start_of_Starts (trim_end s') (trim_end-Starts s' (trim_start-Starts s)))
      (trim_end_idem s')
