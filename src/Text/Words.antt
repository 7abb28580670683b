-- ===== src/Text/Words.antt =====
-- `strings.Fields` on a text that starts with a word of ASCII marks.
use ade_ctld.Common.{All, List, [], ap, refl, ℕ, ◌++◌, ◌∷◌, ◌≡◌}
use ade_ctld.Text.Base.{Bytes}
use ade_ctld.Text.Trim.{width}
use ade_ctld.Text.Split.{fields, fields_from, flush}
use ade_ctld.Text.Laws.{IsInk, width-IsInk}

width-space : (rest : Bytes) → width (b' ' ∷ rest) ≡ 1
unfolding width
width-space [] = refl
width-space (a ∷ []) = refl
width-space (a ∷ b ∷ rest) = refl

fields_from-space : (rest : Bytes) → fields_from 0 (b' ' ∷ rest) ≡ ([], fields rest)
unfolding fields_from fields
fields_from-space rest = rw (width-space rest, fields_from) refl

fields_from-word :
    (word rest : Bytes)
    → All IsInk word
    → fields_from 0 (word ++ (b' ' ∷ rest)) ≡ (word, fields rest)
unfolding fields_from
fields_from-word [] rest h = fields_from-space rest
fields_from-word (c ∷ word) rest (ink, h) =
    rw (width-IsInk c (word ++ (b' ' ∷ rest)) ink, fields_from)
      (ap (λ (p : Bytes × List Bytes). (c ∷ p.0, p.1)) (fields_from-word word rest h))

-- A word, and the words behind a space.
pub fields-word :
    (c : ℕ) (word rest : Bytes)
    → All IsInk (c ∷ word)
    → fields ((c ∷ word) ++ (b' ' ∷ rest)) ≡ (c ∷ word) ∷ fields rest
unfolding fields
fields-word c word rest h =
    ap (λ (p : Bytes × List Bytes). flush p.0 p.1) (fields_from-word (c ∷ word) rest h)

pub fields_nil : fields [] ≡ []
unfolding fields
fields_nil = refl
