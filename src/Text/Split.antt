-- ===== src/Text/Split.antt =====
-- `strings.Split`, `strings.SplitN(s, sep, 2)`, `strings.Index`, `strings.Fields` and
-- `strings.Join`, with one-byte separators.
use ade_ctld.Common.{
  List, Option, [], false, if◌then◌else◌, none, some, suc, true, zero, ℕ, ◌++◌, ◌==◌, ◌∷◌,
}
use ade_ctld.Text.Base.{Bytes}
use ade_ctld.Text.Trim.{width}

-- puts a byte in front of the first part
abbrev pub extend_first : ℕ → List Bytes → List Bytes
extend_first c [] = (c ∷ []) ∷ []
extend_first c (p ∷ ps) = (c ∷ p) ∷ ps

unfoldable pub split : ℕ → Bytes → List Bytes
split sep [] = [] ∷ []
split sep (c ∷ s) = let rest = split sep s in if c == sep then [] ∷ rest else extend_first c rest

-- The two parts around the first separator, if there is one: `parts` of length 2 in the source.
unfoldable pub split_n2 : ℕ → Bytes → Option (Bytes × Bytes)
split_n2 sep [] = none
split_n2 sep (c ∷ s) = elim (c == sep) [
  | true ↦ some ([], s)
  | false ↦ elim (split_n2 sep s) [ none ↦ none | some (a, b) ↦ some (c ∷ a, b) ]
]

-- the position of the first separator
unfoldable pub index : ℕ → Bytes → Option ℕ
index sep [] = none
index sep (c ∷ s) =
    if c == sep then some 0 else elim (index sep s) [ none ↦ none | some i ↦ some (suc i) ]

abbrev pub flush : Bytes → List Bytes → List Bytes
flush [] out = out
flush word out = word ∷ out

-- The words of a text: `strings.Fields` splits around runs of white space. The first argument
-- counts the bytes of a white-space rune that are still to be dropped; what is returned is the
-- current word and the words behind it.
unfoldable pub fields_from : ℕ → Bytes → Bytes × List Bytes
unfolding width
fields_from k [] = ([], [])
fields_from (suc k) (c ∷ s) = let (word, out) = fields_from k s in (word, out)
fields_from zero (c ∷ s) = elim (width (c ∷ s)) [
  | zero ↦ (let (word, out) = fields_from zero s in (c ∷ word, out))
  | suc k ↦ (let (word, out) = fields_from k s in ([], flush word out))
]

unfoldable pub fields : Bytes → List Bytes
unfolding fields_from
fields s = let (word, out) = fields_from zero s in flush word out

unfoldable pub join : List Bytes → Bytes → Bytes
join [] sep = []
join (s ∷ []) sep = s
join (s ∷ t ∷ ss) sep = s ++ (sep ++ join (t ∷ ss) sep)
