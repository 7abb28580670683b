-- ===== src/Common/Any.antt =====
-- `any` and `all` say that an element passes, and that each does.
use ade_ctld.Common.Lists.{All, all, any}
use mathlib.Core.Path.{◌≡◌, refl}
use mathlib.Core.Bool.{Bool, true, false}
use mathlib.Core.List.{List, [], ◌∷◌, map}
use mathlib.Core.Logic.{◌↔◌, inl, inr}
use ade_ctld.Common.Tests.{Bool-cases}
use native.Mathlib.Omega.{arith}

-- an element of the list that passes the test
pub data Some {ℓ} {A : Type ℓ} (p : A → Bool) : List A → Type ℓ where
  here : {x : A} {xs : List A} → p x ≡ true → Some p (x ∷ xs)
  there : {x : A} {xs : List A} → Some p xs → Some p (x ∷ xs)

module _ {ℓ} {A : Type ℓ} (p : A → Bool) where
  any→Some : (xs : List A) → any p xs ≡ true → Some p xs
  any→Some [] h = absurd (cc)
  any→Some (x ∷ xs) h = elim (Bool-cases (p x)) [
    | inl e ↦ here e
    | inr e ↦ there (any→Some xs (rw e at h))
  ]

  Some→any : {xs : List A} → Some p xs → any p xs ≡ true
  Some→any (here h) = rw h
  Some→any (there {x} s) = ground (arith, Some→any s)

  pub any_iff : (xs : List A) → (any p xs ≡ true) ↔ Some p xs
  any_iff xs = (any→Some xs, Some→any)

  pub all_iff : (xs : List A) → (all p xs ≡ true) ↔ All (λ x. p x ≡ true) xs
  all_iff [] = ((λ _. tt), (λ _. refl))
  all_iff (x ∷ xs) = ground (arith, all_iff xs)

  pub not-any_iff : (xs : List A) → (any p xs ≡ false) ↔ All (λ x. p x ≡ false) xs
  not-any_iff [] = ((λ _. tt), (λ _. refl))
  not-any_iff (x ∷ xs) = ground (arith, not-any_iff xs)

module _ {ℓ κ} {A : Type ℓ} {B : Type κ} (p : B → Bool) (f : A → B) where
  pub any-map : (xs : List A) → any p (map f xs) ≡ any (λ x. p (f x)) xs
  any-map [] = refl
  any-map (x ∷ xs) = rw (any-map xs)

  pub all-map : (xs : List A) → all p (map f xs) ≡ all (λ x. p (f x)) xs
  all-map [] = refl
  all-map (x ∷ xs) = rw (all-map xs)
