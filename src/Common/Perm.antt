-- ===== src/Common/Perm.antt =====
-- Permutations and the predicates that they keep.
use ade_ctld.Common.Lists.{All, length}
use Prim.Native.Nat.{suc}
use mathlib.Core.Path.{◌≡◌, refl, subst, ap, ◌∙◌}
use mathlib.Core.List.{List, [], ◌∷◌, ◌++◌, map, Permᴰ}
use mathlib.Core.List.Permᴰ

module _ {ℓ κ} {A : Type ℓ} (P : A → Type κ) where
  pub All-perm : {xs ys : List A} → Permᴰ xs ys → All P xs → All P ys
  All-perm Permᴰ.nil h = tt
  All-perm (Permᴰ.cons e p) (hx, hs) = (subst P e hx, All-perm p hs)
  All-perm (Permᴰ.swap e f) (hy, (hx, hs)) = (subst P f hx, (subst P e hy, hs))
  All-perm (Permᴰ.trans p q) h = All-perm q (All-perm p h)

-- every pair of elements at different places is related
module _ {ℓ κ} {A : Type ℓ} (R : A → A → Type κ) where
  abbrev pub EachPair : List A → Type κ
  EachPair [] = Unit
  EachPair (x ∷ xs) = All (R x) xs × EachPair xs

  pub EachPair-perm :
      ((x y : A) → R x y → R y x) → {xs ys : List A} → Permᴰ xs ys → EachPair xs → EachPair ys
  EachPair-perm s Permᴰ.nil h = tt
  EachPair-perm s (Permᴰ.cons {l₂} e p) (hx, hs) =
      (subst (λ x. All (R x) l₂) e (All-perm _ p hx), EachPair-perm s p hs)
  EachPair-perm s (Permᴰ.swap {a} {b} {a'} {b'} {l} e f) ((hba, hb), (ha, hs)) = (
    (subst (λ x. R x b') f (subst (R b) e (s a b hba)), subst (λ x. All (R x) l) f ha),
    (subst (λ x. All (R x) l) e hb, hs),
  )
  EachPair-perm s (Permᴰ.trans p q) h = EachPair-perm s q (EachPair-perm s p h)

module _ {ℓ} {A : Type ℓ} where
  -- an element may be taken out of the middle
  pub perm_move : (xs ys : List A) (a : A) → Permᴰ (a ∷ (xs ++ ys)) (xs ++ (a ∷ ys))
  perm_move [] ys a = Permᴰ.refl (a ∷ ys)
  perm_move (x ∷ xs) ys a = Permᴰ.trans (Permᴰ.swap refl refl) (Permᴰ.cons refl (perm_move xs ys a))

  pub perm_prefix : (xs : List A) {ys zs : List A} → Permᴰ ys zs → Permᴰ (xs ++ ys) (xs ++ zs)
  perm_prefix [] p = p
  perm_prefix (x ∷ xs) p = Permᴰ.cons refl (perm_prefix xs p)

  pub length-perm : {xs ys : List A} → Permᴰ xs ys → length xs ≡ length ys
  length-perm Permᴰ.nil = refl
  length-perm (Permᴰ.cons e p) = ap suc (length-perm p)
  length-perm (Permᴰ.swap e f) = refl
  length-perm (Permᴰ.trans p q) = length-perm p ∙ length-perm q

-- A permutation of a list is one of what a function makes of it.
pub map-perm {ℓ κ} :
    {A : Type ℓ} {B : Type κ} (f : A → B) {l r : List A} → Permᴰ l r → Permᴰ (map f l) (map f r)
map-perm f Permᴰ.nil = Permᴰ.nil
map-perm f (Permᴰ.cons e p) = Permᴰ.cons (ap f e) (map-perm f p)
map-perm f (Permᴰ.swap e d) = Permᴰ.swap (ap f e) (ap f d)
map-perm f (Permᴰ.trans p q) = Permᴰ.trans (map-perm f p) (map-perm f q)
