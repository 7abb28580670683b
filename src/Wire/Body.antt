-- ===== src/Wire/Body.antt =====
-- The body of an answer, as `List` of client/exe/client.go takes it apart.
use mathlib.Core.List.{reverse-append, reverse-cons, reverse-reverse}
use ade_ctld.Text.{bytes_eq}
use ade_ctld.Common.{
  ==_iff, All, Bool-cases, List, [], ap, append_assoc, arith, inl, inr, refl, reverse, sym, ℕ, ◌++◌,
  ◌<◌, ◌==◌, ◌∙◌, ◌∷◌, ◌≡◌, ◌≢◌,
}
use ade_ctld.Text.{
  Bytes, IsTrimmed, last_width, split, str_eq, trim_space, trim_space_line, width, width-IsInk,
}
use ade_ctld.Parser.Input.{IsOneLine}
use ade_ctld.Client.Send.{line_of}
use ade_ctld.Client.Calls.{app_of_line, apps_of_body, apps_of_lines}
use ade_ctld.Wire.Frame.{IsMarked, lines_of, one_line}

-- A line with something in it, which neither starts nor ends with white space.
pub record IsTextLine (s : Bytes) : Type 0 where
  pub first : IsMarked s
  pub last : last_width (reverse s) ≡ 0

-- lines with line feeds between them
glue : Bytes → List Bytes → Bytes
glue t [] = t
glue t (u ∷ us) = t ++ (b'\n' ∷ glue u us)

lines_of-glue : (t : Bytes) (ts : List Bytes) → lines_of (t ∷ ts) ≡ line_of (glue t ts)
unfolding glue
lines_of-glue t [] = refl
lines_of-glue t (u ∷ us) =
    ap (λ s. t ++ (b'\n' ∷ s)) (lines_of-glue u us)
    ∙ sym (append_assoc t (b'\n' ∷ glue u us) (b'\n' ∷ []))

-- No white space ends behind the end of a text and reaches over an ASCII byte into it.
pub last_width-ascii :
    (c : ℕ) (r x : Bytes) → c < 128 → r ≢ [] → last_width r ≡ 0 → last_width (r ++ (c ∷ x)) ≡ 0
unfolding last_width
last_width-ascii c [] x hc ne h = absurd (ne refl)
last_width-ascii c (a ∷ []) [] hc ne h = ground arith
last_width-ascii c (a ∷ []) (y ∷ x) hc ne h = ground arith
last_width-ascii c (a ∷ b ∷ []) x hc ne h = ground arith
last_width-ascii c (a ∷ b ∷ d ∷ r) x hc ne h = h

marked_ne_nil : (s : Bytes) → IsMarked s → s ≢ []
marked_ne_nil [] m = absurd m
marked_ne_nil (c ∷ s) m = cc

pub reverse-ne-nil : (s : Bytes) → s ≢ [] → reverse s ≢ []
reverse-ne-nil s h e = h (sym (reverse-reverse s) ∙ ap reverse e)

pub reverse-around : (c : ℕ) (t g : Bytes) → reverse (t ++ (c ∷ g)) ≡ reverse g ++ (c ∷ reverse t)
reverse-around c t g =
    reverse-append t (c ∷ g)
    ∙ ap (λ r. r ++ reverse t) (reverse-cons c g)
    ∙ append_assoc (reverse g) (c ∷ []) (reverse t)

append-ne-nil : (t x : Bytes) → IsMarked t → t ++ x ≢ []
append-ne-nil [] x m = absurd m
append-ne-nil (c ∷ t) x m = cc

glue-back :
    (t : Bytes) (ts : List Bytes)
    → All IsTextLine (t ∷ ts)
    → (last_width (reverse (glue t ts)) ≡ 0) × (glue t ts ≢ [])
unfolding glue
glue-back t [] (h, hs) = (h.last, marked_ne_nil t h.first)
glue-back t (u ∷ us) (h, hs) =
    let (back, ne) = glue-back u us hs in
    (
      rw (reverse-around b'\n' t (glue u us)) (
          last_width-ascii b'\n' (reverse (glue u us)) (reverse t) (omega arith)
            (reverse-ne-nil (glue u us) ne) back),
      append-ne-nil t (b'\n' ∷ glue u us) h.first,
    )

glue-front : (t : Bytes) (ts : List Bytes) → IsMarked t → width (glue t ts) ≡ 0
unfolding glue
glue-front [] ts m = elim m [ ]
glue-front (c ∷ t) [] (ink, ne, h) = width-IsInk c t ink
glue-front (c ∷ t) (u ∷ us) (ink, ne, h) = width-IsInk c (t ++ (b'\n' ∷ glue u us)) ink

glue-IsTrimmed : (t : Bytes) (ts : List Bytes) → All IsTextLine (t ∷ ts) → IsTrimmed (glue t ts)
unfolding glue
glue-IsTrimmed t ts h = record { front = glue-front t ts h.0.first; back = (glue-back t ts h).0 }

split-line : (t s : Bytes) → IsOneLine t → split b'\n' (t ++ (b'\n' ∷ s)) ≡ t ∷ split b'\n' s
unfolding split
split-line [] s h = refl
split-line (c ∷ t) s (hc, ht) = elim (Bool-cases (c == b'\n')) [
  | inl e ↦ absurd (hc ((==_iff c b'\n').0 e))
  | inr e ↦ rw (e, split-line t s ht) refl
]

split_one : (t : Bytes) → IsOneLine t → split b'\n' t ≡ t ∷ []
unfolding split
split_one [] h = refl
split_one (c ∷ t) (hc, ht) = elim (Bool-cases (c == b'\n')) [
  | inl e ↦ absurd (hc ((==_iff c b'\n').0 e))
  | inr e ↦ rw (e, split_one t ht) refl
]

split-glue :
    (t : Bytes) (ts : List Bytes) → All IsTextLine (t ∷ ts) → split b'\n' (glue t ts) ≡ t ∷ ts
unfolding glue
split-glue t [] (h, hs) = split_one t (one_line t h.first)
split-glue t (u ∷ us) (h, hs) =
    split-line t (glue u us) (one_line t h.first) ∙ ap (◌∷◌ t) (split-glue u us hs)

-- `List` looks at each line of a body of such lines.
pub apps_of_body-lines :
    (ts : List Bytes) → All IsTextLine ts → apps_of_body (lines_of ts) ≡ apps_of_lines ts
unfolding apps_of_body
apps_of_body-lines [] h = unfold trim_space split apps_of_lines app_of_line str_eq in refl
apps_of_body-lines (t ∷ ts) h =
    ap (λ s. apps_of_lines (split b'\n' s))
      (ap trim_space (lines_of-glue t ts) ∙ trim_space_line (glue t ts) (glue-IsTrimmed t ts h))
    ∙ ap apps_of_lines (split-glue t ts h)
