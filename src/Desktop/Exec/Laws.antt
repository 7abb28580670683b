-- ===== src/Desktop/Exec/Laws.antt =====
-- `removeFieldCodes` of internal/indexer/desktop/desktop.go.
use ade_ctld.Common.{
  ==_iff, Bool-cases, [], ap, false, if◌then◌else◌, inl, inr, refl, sym, ℕ, ◌==◌, ◌∙◌, ◌∷◌, ◌≡◌,
}
use ade_ctld.Text.{Bytes}
use ade_ctld.Desktop.Exec.{remove_field_codes}
use ade_ctld.Desktop.Exec.{remove_from}

-- Each percent sign is written twice.
unfoldable pub escape_percent : Bytes → Bytes
escape_percent [] = []
escape_percent (c ∷ s) = if c == b'%' then b'%' ∷ b'%' ∷ escape_percent s else c ∷ escape_percent s

remove_from-cons :
    (c : ℕ) (s : Bytes) → c == b'%' ≡ false → remove_from false (c ∷ s) ≡ c ∷ remove_from false s
unfolding remove_from
remove_from-cons c [] h = refl
remove_from-cons c (d ∷ s) h = rw (h, remove_from) refl

-- A text in which every percent sign is doubled comes out as it was meant.
pub remove_field_codes-escape_percent : (s : Bytes) → remove_field_codes (escape_percent s) ≡ s
unfolding remove_field_codes escape_percent remove_from
remove_field_codes-escape_percent [] = refl
remove_field_codes-escape_percent (c ∷ s) = elim (Bool-cases (c == b'%')) [
  | inl e ↦ rw e (
      ap (◌∷◌ b'%') (remove_field_codes-escape_percent s)
      ∙ ap (λ x. x ∷ s) (sym ((==_iff c b'%').0 e)))
  | inr e ↦
      rw e
        (remove_from-cons c (escape_percent s) e ∙ ap (◌∷◌ c) (remove_field_codes-escape_percent s))
]
