-- ===== src/Text/Trim.antt =====
-- `strings.TrimSpace`, `strings.Trim` with a set of ASCII bytes, and `strings.TrimSuffix`.
-- White space is `unicode.IsSpace`, recognised by its UTF-8 bytes, from the front and from the end.
use ade_ctld.Common.{
  Bool, [], drop, false, if◌then◌else◌, leb, length, reverse, suc, true, zero, ℕ, ◌&&◌, ◌==◌, ◌||◌,
  ◌∷◌,
}
use ade_ctld.Text.Base.{Bytes, has_suffix}

-- \t \n \v \f \r and the space
unfoldable pub is_ascii_space : ℕ → Bool
is_ascii_space c = leb 9 c && leb c 13 || c == 32

-- U+0085 and U+00A0
unfoldable pub is_space2 : ℕ → ℕ → Bool
is_space2 a b = a == 0xc2 && (b == 0x85 || b == 0xa0)

-- U+1680, U+2000 to U+200A, U+2028, U+2029, U+202F, U+205F and U+3000
unfoldable pub is_space3 : ℕ → ℕ → ℕ → Bool
is_space3 a b c =
    a == 0xe1 && b == 0x9a && c == 0x80
    || a == 0xe2 && b == 0x80 && (leb 0x80 c && leb c 0x8a || c == 0xa8 || c == 0xa9 || c == 0xaf)
    || a == 0xe2 && b == 0x81 && c == 0x9f
    || a == 0xe3 && b == 0x80 && c == 0x80

-- The number of bytes of the white-space rune at the front; 0 if there is none.
unfoldable pub width : Bytes → ℕ
unfolding is_ascii_space is_space2 is_space3
width [] = 0
width (a ∷ []) = if is_ascii_space a then 1 else 0
width (a ∷ b ∷ []) = if is_ascii_space a then 1 else if is_space2 a b then 2 else 0
width (a ∷ b ∷ c ∷ s) =
    if is_ascii_space a then 1 else if is_space2 a b then 2 else if is_space3 a b c then 3 else 0

-- The same at the end of a text that is given backwards.
unfoldable pub last_width : Bytes → ℕ
unfolding is_ascii_space is_space2 is_space3
last_width [] = 0
last_width (a ∷ []) = if is_ascii_space a then 1 else 0
last_width (a ∷ b ∷ []) = if is_ascii_space a then 1 else if is_space2 b a then 2 else 0
last_width (a ∷ b ∷ c ∷ s) =
    if is_ascii_space a then 1 else if is_space2 b a then 2 else if is_space3 c b a then 3 else 0

-- Drops runes as long as `w` finds one; the number counts the bytes of the current one.
unfoldable pub drop_runes : (Bytes → ℕ) → ℕ → Bytes → Bytes
drop_runes w k [] = []
drop_runes w (suc k) (c ∷ s) = drop_runes w k s
drop_runes w zero (c ∷ s) = elim (w (c ∷ s)) [ zero ↦ c ∷ s | suc k ↦ drop_runes w k s ]

unfoldable pub trim_space : Bytes → Bytes
unfolding drop_runes width last_width
trim_space s = reverse (drop_runes last_width 0 (reverse (drop_runes width 0 s)))

drop_in : (ℕ → Bool) → Bytes → Bytes
drop_in p [] = []
drop_in p (c ∷ s) = elim (p c) [ true ↦ drop_in p s | false ↦ c ∷ s ]

-- `strings.Trim(s, cutset)` for a cutset of ASCII bytes, given as a test
unfoldable pub trim_cut : (ℕ → Bool) → Bytes → Bytes
unfolding drop_in
trim_cut p s = reverse (drop_in p (reverse (drop_in p s)))

unfoldable pub trim_suffix : Bytes → Bytes → Bytes
unfolding has_suffix
trim_suffix s p = if has_suffix s p then reverse (drop (length p) (reverse s)) else s
