-- ===== src/Text/Base.antt =====
-- Comparison, prefixes, search and replacement (Go's `==`, `HasPrefix`, `HasSuffix`, `CutPrefix`,
-- `Contains`, `Replace`, `ReplaceAll`) on bytes.
use Prim.Native.Char.{code}
use ade_ctld.Common.{
  Bool, Eq, List, Option, String, [], arith, false, if◌then◌else◌, length, none, refl, reverse,
  some, suc, true, zero, ℕ, ◌&&◌, ◌++◌, ◌-◌, ◌==◌, ◌||◌, ◌↔◌, ◌∷◌, ◌≡◌, ◌≢◌,
}

abbrev pub Bytes : Type 0
Bytes = List ℕ

-- The code points of a literal: its bytes, since every literal of the program is ASCII.
abbrev pub codes : String → Bytes
codes String.[] = []
codes (String.◌∷◌ c s) = code c ∷ codes s

unfoldable pub str_eq : Bytes → Bytes → Bool
str_eq [] [] = true
str_eq (a ∷ s) (b ∷ t) = a == b && str_eq s t
str_eq _ _ = false

pub str_eq_iff : (s t : Bytes) → (str_eq s t ≡ true) ↔ (s ≡ t)
unfolding str_eq
str_eq_iff (a ∷ s) (b ∷ t) = ground (arith, str_eq_iff s t)
str_eq_iff _ _ = ground arith

pub not-str_eq : (s t : Bytes) → s ≢ t → str_eq s t ≡ false
not-str_eq s t h = by_test (str_eq s t) refl
  where
    by_test : (b : Bool) → str_eq s t ≡ b → str_eq s t ≡ false
    by_test true e = absurd (h ((str_eq_iff s t).0 e))
    by_test false e = e

-- `strings.CutPrefix`: what follows the prefix, if it is there
unfoldable pub cut_prefix : Bytes → Bytes → Option Bytes
cut_prefix s [] = some s
cut_prefix [] (p ∷ ps) = none
cut_prefix (c ∷ s) (p ∷ ps) = if c == p then cut_prefix s ps else none

unfoldable pub has_prefix : Bytes → Bytes → Bool
has_prefix s [] = true
has_prefix [] (p ∷ ps) = false
has_prefix (c ∷ s) (p ∷ ps) = c == p && has_prefix s ps

unfoldable pub has_suffix : Bytes → Bytes → Bool
unfolding has_prefix
has_suffix s p = has_prefix (reverse s) (reverse p)

unfoldable pub contains : Bytes → Bytes → Bool
unfolding has_prefix
contains [] p = has_prefix [] p
contains (c ∷ s) p = has_prefix (c ∷ s) p || contains s p

abbrev pub concat : List Bytes → Bytes
concat [] = []
concat (s ∷ ss) = s ++ concat ss

-- One pass of `strings.ReplaceAll(s, old, new)` for a non-empty `old`. The first argument counts
-- the bytes of an occurrence that are still to be dropped.
replace_from : ℕ → Bytes → Bytes → Bytes → Bytes
unfolding has_prefix
replace_from k [] old new = []
replace_from (suc k) (c ∷ s) old new = replace_from k s old new
replace_from zero (c ∷ s) old new = elim (has_prefix (c ∷ s) old) [
  | true ↦ new ++ replace_from (length old - 1) s old new
  | false ↦ c ∷ replace_from zero s old new
]

unfoldable pub replace_all : Bytes → Bytes → Bytes → Bytes
unfolding replace_from
replace_all s old new = replace_from zero s old new

instance abbrev pub bytes_eq : Eq Bytes
bytes_eq = record { beq = str_eq; beq_iff = str_eq_iff }
