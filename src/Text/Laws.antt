-- ===== src/Text/Laws.antt =====
-- What `TrimSpace` leaves alone, and what it takes off the end of a line.
use ade_ctld.Common.{All, [], arith, refl, reverse, ℕ, ◌++◌, ◌∷◌, ◌≡◌, ◌≢◌, ◌≤◌}
use mathlib.Core.List.{reverse-append, reverse-cons, reverse-reverse}
use ade_ctld.Text.Base.{Bytes}
use ade_ctld.Text.Trim.{drop_runes, last_width, trim_space, width}

-- A text that neither starts nor ends with a white-space rune.
pub record IsTrimmed (s : Bytes) : Type 0 where
  pub front : width s ≡ 0
  pub back : last_width (reverse s) ≡ 0

pub drop_runes_none : (w : Bytes → ℕ) (s : Bytes) → w s ≡ 0 → drop_runes w 0 s ≡ s
unfolding drop_runes
drop_runes_none w [] h = refl
drop_runes_none w (c ∷ s) h = rw (h, drop_runes)

pub trim_space-IsTrimmed : {s : Bytes} → IsTrimmed s → trim_space s ≡ s
unfolding trim_space
trim_space-IsTrimmed {s} t =
    rw (drop_runes_none width s t.front, drop_runes_none last_width (reverse s) t.back)
      (reverse-reverse s)

width_lf : (s : Bytes) → s ≢ [] → width s ≡ 0 → width (s ++ b'\n' ∷ []) ≡ 0
unfolding width
width_lf [] ne h = absurd (ne refl)
width_lf (a ∷ []) ne h = ground arith
width_lf (a ∷ b ∷ []) ne h = ground arith
width_lf (a ∷ b ∷ c ∷ s) ne h = h

last_width_lf : (r : Bytes) → last_width (b'\n' ∷ r) ≡ 1
unfolding last_width
last_width_lf [] = refl
last_width_lf (a ∷ []) = refl
last_width_lf (a ∷ b ∷ r) = refl

drop_runes_lf : (r : Bytes) → drop_runes last_width 0 (b'\n' ∷ r) ≡ drop_runes last_width 0 r
unfolding drop_runes
drop_runes_lf r = rw (last_width_lf r, drop_runes)

-- The end of a line is trimmed away.
pub trim_space_line : (s : Bytes) → IsTrimmed s → trim_space (s ++ b'\n' ∷ []) ≡ s
unfolding trim_space
trim_space_line [] t = refl
trim_space_line (c ∷ s) t =
    rw
      (
        drop_runes_none width (c ∷ s ++ b'\n' ∷ []) (width_lf (c ∷ s) (cc) t.front),
        reverse-append (c ∷ s) (b'\n' ∷ []),
        drop_runes_lf (reverse (c ∷ s)),
        drop_runes_none last_width (reverse (c ∷ s)) t.back,
      )
      (reverse-reverse (c ∷ s))

-- a byte that no white-space rune starts or ends with
abbrev pub IsInk : ℕ → Type 0
IsInk c = (33 ≤ c) × (c ≤ 127)

pub width-IsInk : (c : ℕ) (s : Bytes) → IsInk c → width (c ∷ s) ≡ 0
unfolding width
width-IsInk c [] h = ground arith
width-IsInk c (a ∷ []) h = ground arith
width-IsInk c (a ∷ b ∷ s) h = ground arith

-- No white space ends in such a byte.
pub last_width-IsInk : (c : ℕ) (s : Bytes) → IsInk c → last_width (c ∷ s) ≡ 0
unfolding last_width
last_width-IsInk c [] h = ground arith
last_width-IsInk c (a ∷ []) h = ground arith
last_width-IsInk c (a ∷ b ∷ s) h = ground arith

last_width-concat : (r : Bytes) (c : ℕ) → IsInk c → last_width r ≡ 0 → last_width (r ++ c ∷ []) ≡ 0
unfolding last_width
last_width-concat [] c ink h = ground arith
last_width-concat (a ∷ []) c ink h = ground arith
last_width-concat (a ∷ b ∷ []) c ink h = ground arith
last_width-concat (a ∷ b ∷ d ∷ r) c ink h = h

-- An ASCII mark in front of a text that does not end with white space.
pub IsTrimmed-cons : (c : ℕ) (s : Bytes) → IsInk c → last_width (reverse s) ≡ 0 → IsTrimmed (c ∷ s)
IsTrimmed-cons c s ink h = record {
  front = width-IsInk c s ink;
  back = rw reverse-cons (last_width-concat (reverse s) c ink h);
}

-- A text of ASCII marks only.
pub IsTrimmed-All : (s : Bytes) → All IsInk s → IsTrimmed s
unfolding width last_width
IsTrimmed-All [] h = record { front = refl; back = refl }
IsTrimmed-All (c ∷ s) (hc, hs) = IsTrimmed-cons c s hc (IsTrimmed-All s hs).back
