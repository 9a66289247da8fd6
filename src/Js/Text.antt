-- ===== src/Js/Text.antt =====
-- `String.prototype.trim`. Texts are sequences of code points, without lone surrogates.
use Prim.Native.Char.{Char, code}
use linkflow_v.Prelude.{
  ℕ, String, Bool, true, false, ◌&&◌, ◌||◌, eqb, leb, if◌then◌else◌, ◌≡◌, refl, ap, ◌∙◌, Bool-cases,
  inl, inr,
}

-- White space and line ends, as ECMAScript lists them.
pub is_space : ℕ → Bool
is_space c =
    (leb 9 c && leb c 13)
    || eqb c 32
    || eqb c 160
    || eqb c 0x1680
    || (leb 0x2000 c && leb c 0x200A)
    || eqb c 0x2028
    || eqb c 0x2029
    || eqb c 0x202F
    || eqb c 0x205F
    || eqb c 0x3000
    || eqb c 0xFEFF

abbrev pub is_empty : String → Bool
is_empty String.[] = true
is_empty (String.◌∷◌ c s) = false

trim_start : String → String
trim_start String.[] = String.[]
trim_start (String.◌∷◌ c s) =
    let rest = trim_start s in if is_space (code c) then rest else String.◌∷◌ c s

-- The end of a text is trimmed once its tail is.
abbrev trim_last : Char → String → String
trim_last c rest = if is_empty rest && is_space (code c) then String.[] else String.◌∷◌ c rest

trim_end : String → String
trim_end String.[] = String.[]
trim_end (String.◌∷◌ c s) = trim_last c (trim_end s)

unfoldable pub trim : String → String
unfolding trim_start trim_end is_space
trim s = trim_end (trim_start s)

abbrev StartsVisibly : String → Type 0
StartsVisibly String.[] = Unit
StartsVisibly (String.◌∷◌ c s) = is_space (code c) ≡ false

trim_start-StartsVisibly : (s : String) → StartsVisibly (trim_start s)
unfolding trim_start
trim_start-StartsVisibly String.[] = tt
trim_start-StartsVisibly (String.◌∷◌ c s) = elim (Bool-cases (is_space (code c))) [
  | inl p ↦ rw p (trim_start-StartsVisibly s)
  | inr p ↦ rw p p
]

trim_start_fixed : (s : String) → StartsVisibly s → trim_start s ≡ s
unfolding trim_start
trim_start_fixed String.[] h = refl
trim_start_fixed (String.◌∷◌ c s) h = rw h refl

trim_last-StartsVisibly :
    (c : Char) (rest : String) → is_space (code c) ≡ false → StartsVisibly (trim_last c rest)
trim_last-StartsVisibly c String.[] h = rw h h
trim_last-StartsVisibly c (String.◌∷◌ d rest) h = h

trim_end-StartsVisibly : (s : String) → StartsVisibly s → StartsVisibly (trim_end s)
unfolding trim_end
trim_end-StartsVisibly String.[] h = tt
trim_end-StartsVisibly (String.◌∷◌ c s) h = trim_last-StartsVisibly c (trim_end s) h

trim_end-trim_last :
    (c : Char) (rest : String)
    → trim_end rest ≡ rest
    → trim_end (trim_last c rest) ≡ trim_last c rest
unfolding trim_end
trim_end-trim_last c String.[] h = elim (Bool-cases (is_space (code c))) [
  | inl p ↦ rw p refl
  | inr p ↦ rw p (rw p refl)
]
trim_end-trim_last c (String.◌∷◌ d rest) h = rw h refl

trim_end_idem : (s : String) → trim_end (trim_end s) ≡ trim_end s
unfolding trim_end
trim_end_idem String.[] = refl
trim_end_idem (String.◌∷◌ c s) = trim_end-trim_last c (trim_end s) (trim_end_idem s)

-- A trimmed text is trimmed.
pub trim_idem : (s : String) → trim (trim s) ≡ trim s
unfolding trim
trim_idem s =
    ap trim_end (
      trim_start_fixed (trim_end (trim_start s))
        (trim_end-StartsVisibly (trim_start s) (trim_start-StartsVisibly s)))
    ∙ trim_end_idem (trim_start s)
