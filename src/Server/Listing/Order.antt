-- ===== src/Server/Listing/Order.antt =====
-- The order of `list`, `sortByRunFrequency` of server/server.go.
use mathlib.Core.List.{Permᴰ}
use mathlib.Core.List.Permᴰ
use ade_ctld.Common.{
  All, All-perm, Bool, Bool-cases, EachPair, EachPair-perm, List, [], arith, false, inl, inr, refl,
  sym, true, ℕ, ◌∙◌, ◌∷◌, ◌≡◌, ◌≢◌,
}
use ade_ctld.Text.{Bytes}
use ade_ctld.Index.{Entry}
use ade_ctld.Server.Listing.Sort.{insert_stable, less, slice_stable, sort_by_frequency}

-- no two entries with one identifier
abbrev pub DistinctIds : List Entry → Type 0
DistinctIds = EachPair (λ (a b : Entry). a.id ≢ b.id)

module _ {ℓ} {A : Type ℓ} (lt : A → A → Bool) where
  insert_stable-perm : (x : A) (l : List A) → Permᴰ (insert_stable lt x l) (x ∷ l)
  unfolding insert_stable
  insert_stable-perm x [] = Permᴰ.refl (x ∷ [])
  insert_stable-perm x (y ∷ ys) = elim (Bool-cases (lt y x)) [
    | inl e ↦
        rw (e, insert_stable)
          (Permᴰ.trans (Permᴰ.cons refl (insert_stable-perm x ys)) (Permᴰ.swap refl refl))
    | inr e ↦ rw (e, insert_stable) (Permᴰ.refl (x ∷ y ∷ ys))
  ]

  pub slice_stable-perm : (l : List A) → Permᴰ (slice_stable lt l) l
  unfolding slice_stable
  slice_stable-perm [] = Permᴰ.refl []
  slice_stable-perm (x ∷ xs) =
      Permᴰ.trans (insert_stable-perm x (slice_stable lt xs))
        (Permᴰ.cons refl (slice_stable-perm xs))

module _ (frequencies : List (Bytes × ℕ)) where
  abbrev lt : Entry → Entry → Bool
  lt = less frequencies

  -- Two entries that differ in their identifiers may be inserted in either order.
  insert_comm :
      (x y : Entry) (l : List Entry)
      → x.id ≢ y.id
      → insert_stable lt x (insert_stable lt y l) ≡ insert_stable lt y (insert_stable lt x l)
  unfolding insert_stable less
  insert_comm x y [] ne = ground arith
  insert_comm x y (z ∷ zs) ne = ground (arith, insert_comm x y zs ne)

  slice_stable_comm :
      {l r : List Entry} → Permᴰ l r → DistinctIds l → slice_stable lt l ≡ slice_stable lt r
  unfolding slice_stable
  slice_stable_comm Permᴰ.nil h = refl
  slice_stable_comm (Permᴰ.cons e p) (_, h) = cc (e, slice_stable_comm p h)
  slice_stable_comm (Permᴰ.swap {a} {b} {l} e f) ((ne, _), _) =
      cc (e, f, insert_comm a b (slice_stable lt l) ne)
  slice_stable_comm (Permᴰ.trans p q) h =
      slice_stable_comm p h ∙ slice_stable_comm q (EachPair-perm _ (λ a b ne e. ne (sym e)) p h)

  -- `a` may stand in front of `b`
  abbrev pub NotAfter : Entry → Entry → Type 0
  NotAfter a b = less frequencies b a ≡ false

  NotAfter-trans : (a b c : Entry) → NotAfter a b → NotAfter b c → NotAfter a c
  unfolding less
  NotAfter-trans a b c h k = ground arith

  NotAfter-total : (a b : Entry) → less frequencies b a ≡ true → NotAfter b a
  unfolding less
  NotAfter-total a b h = ground arith

  All-NotAfter_trans :
      (a b : Entry) (l : List Entry) → NotAfter a b → All (NotAfter b) l → All (NotAfter a) l
  All-NotAfter_trans a b [] h k = tt
  All-NotAfter_trans a b (c ∷ l) h (kc, k) =
      (NotAfter-trans a b c h kc, All-NotAfter_trans a b l h k)

  insert_stable-sorted :
      (x : Entry) (l : List Entry) → EachPair NotAfter l → EachPair NotAfter (insert_stable lt x l)
  unfolding insert_stable
  insert_stable-sorted x [] h = (tt, tt)
  insert_stable-sorted x (y ∷ ys) (hy, hs) = elim (Bool-cases (lt y x)) [
    | inl e ↦
        rw (e, insert_stable)
          (
            All-perm (NotAfter y) (Permᴰ.symm (insert_stable-perm lt x ys))
                (NotAfter-total x y e, hy),
            insert_stable-sorted x ys hs,
          )
    | inr e ↦ rw (e, insert_stable) ((e, All-NotAfter_trans x y ys e hy), (hy, hs))
  ]

  slice_stable-sorted : (l : List Entry) → EachPair NotAfter (slice_stable lt l)
  unfolding slice_stable
  slice_stable-sorted [] = tt
  slice_stable-sorted (x ∷ xs) =
      insert_stable-sorted x (slice_stable lt xs) (slice_stable-sorted xs)

  -- The sort keeps the entries, and puts them in descending order of their counts, and in ascending
  -- order of their identifiers where the counts are equal.
  pub sort_by_frequency_lem :
      (l : List Entry)
      → Permᴰ (sort_by_frequency frequencies l) l
        × EachPair NotAfter (sort_by_frequency frequencies l)
  unfolding sort_by_frequency
  sort_by_frequency_lem l = (slice_stable-perm lt l, slice_stable-sorted l)

  -- With distinct identifiers the result does not depend on the order of the input.
  pub sort_by_frequency-perm :
      {l r : List Entry}
      → Permᴰ l r
      → DistinctIds l
      → sort_by_frequency frequencies l ≡ sort_by_frequency frequencies r
  unfolding sort_by_frequency
  sort_by_frequency-perm = slice_stable_comm
