-- ===== src/Text/Front.antt =====
-- `TrimSpace` on a text that starts with an ASCII mark.
use mathlib.Core.List.{reverse-append, reverse-reverse}
use ade_ctld.Common.{[], ap, refl, reverse, suc, sym, zero, ℕ, ◌++◌, ◌∙◌, ◌∷◌, ◌≡◌}
use ade_ctld.Text.Base.{Bytes}
use ade_ctld.Text.Trim.{drop_runes, last_width, trim_space, width}
use ade_ctld.Text.Laws.{IsInk, drop_runes_none, width-IsInk}

drop_runes-suffix : (w : Bytes → ℕ) (k : ℕ) (s : Bytes) → (p : Bytes) × (s ≡ p ++ drop_runes w k s)
unfolding drop_runes
drop_runes-suffix w k [] = ([], refl)
drop_runes-suffix w (suc k) (c ∷ s) = let (p, e) = drop_runes-suffix w k s in (c ∷ p, ap (◌∷◌ c) e)
drop_runes-suffix w zero (c ∷ s) = by_width (w (c ∷ s)) (λ k. drop_runes-suffix w k s)
  where
    by_width :
        (n : ℕ)
        → ((k : ℕ) → (p : Bytes) × (s ≡ p ++ drop_runes w k s))
        → (p : Bytes) × (c ∷ s ≡ p ++ (elim n [ zero ↦ c ∷ s | suc k ↦ drop_runes w k s ]))
    by_width zero h = ([], refl)
    by_width (suc k) h = let (p, e) = h k in (c ∷ p, ap (◌∷◌ c) e)

-- What is left of a text that starts with a mark starts with that mark.
pub trim_space-head : (c d : ℕ) (s t : Bytes) → IsInk c → trim_space (c ∷ s) ≡ d ∷ t → c ≡ d
unfolding trim_space
trim_space-head c d s t ink h =
    let kept = drop_runes last_width 0 (reverse (c ∷ s)) in
    let (p, e) = drop_runes-suffix last_width 0 (reverse (c ∷ s)) in
    let back : reverse kept ≡ d ∷ t =
      ap (λ x. reverse (drop_runes last_width 0 (reverse x)))
        (sym (drop_runes_none width (c ∷ s) (width-IsInk c s ink)))
      ∙ h in
    let whole : c ∷ s ≡ reverse kept ++ reverse p =
      sym (reverse-reverse (c ∷ s)) ∙ ap reverse e ∙ reverse-append p kept in
    let front : c ∷ s ≡ d ∷ (t ++ reverse p) = whole ∙ ap (λ x. x ++ reverse p) back in cc (front)
