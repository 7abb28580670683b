-- ===== src/Server/Outcomes.antt =====
-- Case splits on the values that the handlers branch on, for any predicate on what they come to.
use ade_ctld.Common.{Bool, Option, false, if◌then◌else◌, none, refl, some, true, ◌≡◌}
use ade_ctld.Parser.{ValueType, type_string, type_int, type_bool}

module _ {R : Type 0} (P : R → Type 0) where
  pub by_test : (b : Bool) (x y : R) → (b ≡ true → P x) → P y → P (if b then x else y)
  by_test true x y hx hy = hx refl
  by_test false x y hx hy = hy

  pub by_string :
      (kind : ValueType) (x y : R)
      → (kind ≡ type_string → P x)
      → P y
      → P (elim kind [ type_string ↦ x | _ ↦ y ])
  by_string type_string x y hx hy = hx refl
  by_string type_int x y hx hy = hy
  by_string type_bool x y hx hy = hy

  pub by_int : (kind : ValueType) (x y : R) → P x → P y → P (elim kind [ type_int ↦ x | _ ↦ y ])
  by_int type_int x y hx hy = hx
  by_int type_string x y hx hy = hy
  by_int type_bool x y hx hy = hy

  pub by_kind :
      (kind : ValueType) (x y z : R)
      → P x
      → P y
      → P z
      → P (elim kind [ type_string ↦ x | type_int ↦ y | type_bool ↦ z ])
  by_kind type_string x y z hx hy hz = hx
  by_kind type_int x y z hx hy hz = hy
  by_kind type_bool x y z hx hy hz = hz

  pub by_option :
      {A : Type 0} (o : Option A) (x : R) (f : A → R)
      → P x
      → ((a : A) → o ≡ some a → P (f a))
      → P (elim o [ none ↦ x | some a ↦ f a ])
  by_option none x f hx hf = hx
  by_option (some a) x f hx hf = hf a refl
