-- ===== src/Server/Listing/Filtered.antt =====
-- `filterEntries` of server/server.go on the entries in different orders.
use mathlib.Core.List.{Permᴰ}
use mathlib.Core.List.Permᴰ
use mathlib.Core.Path.{subst₂}
use ade_ctld.Common.{
  All, Bool, Bool-cases, List, [], false, if◌then◌else◌, inl, inr, refl, subst, true, ◌∷◌,
}
use ade_ctld.Text.{Unicode}
use ade_ctld.Index.{Entry}
use ade_ctld.Server.State.{Filters, Host}
use ade_ctld.Server.Filters.{filter_entries, matches_filters}
use ade_ctld.Server.Listing.Order.{DistinctIds}

-- The runtime goes through the index in some order.
pub record IsFair (host : Host) : Type 0 where
  pub order_perm : (entries : List Entry) → Permᴰ (host.order entries) entries

abbrev keep : Bool → Entry → List Entry → List Entry
keep b e es = if b then e ∷ es else es

keep-cons : (b : Bool) (e : Entry) {l r : List Entry} → Permᴰ l r → Permᴰ (keep b e l) (keep b e r)
keep-cons true e p = Permᴰ.cons refl p
keep-cons false e p = p

keep-swap :
    (b c : Bool) (d e : Entry) (l : List Entry)
    → Permᴰ (keep b d (keep c e l)) (keep c e (keep b d l))
keep-swap true true d e l = Permᴰ.swap refl refl
keep-swap true false d e l = Permᴰ.refl (d ∷ l)
keep-swap false true d e l = Permᴰ.refl (e ∷ l)
keep-swap false false d e l = Permᴰ.refl l

module _ (u : Unicode) (filters : Filters) where
  abbrev test : Entry → Bool
  test = matches_filters u filters

  abbrev kept : List Entry → List Entry
  kept = filter_entries u filters

  pub filter_entries-All :
      (P : Entry → Type 0) (l : List Entry) → All P l → All P (filter_entries u filters l)
  unfolding filter_entries
  filter_entries-All P [] h = tt
  filter_entries-All P (e ∷ es) (he, hs) = elim (Bool-cases (matches_filters u filters e)) [
    | inl m ↦ rw m (he, filter_entries-All P es hs)
    | inr m ↦ rw m (filter_entries-All P es hs)
  ]

  pub filter_entries-DistinctIds :
      (l : List Entry) → DistinctIds l → DistinctIds (filter_entries u filters l)
  unfolding filter_entries
  filter_entries-DistinctIds [] h = tt
  filter_entries-DistinctIds (e ∷ es) (he, hs) = elim (Bool-cases (matches_filters u filters e)) [
    | inl m ↦ rw m (filter_entries-All _ es he, filter_entries-DistinctIds es hs)
    | inr m ↦ rw m (filter_entries-DistinctIds es hs)
  ]

  pub filter_entries-perm :
      {l r : List Entry}
      → Permᴰ l r
      → Permᴰ (filter_entries u filters l) (filter_entries u filters r)
  unfolding filter_entries
  filter_entries-perm Permᴰ.nil = Permᴰ.nil
  filter_entries-perm (Permᴰ.cons {a} {b} {l₁} {l₂} e p) =
      subst (λ x. Permᴰ (keep (test a) a (kept l₁)) (keep (test x) x (kept l₂))) e
        (keep-cons (test a) a (filter_entries-perm p))
  filter_entries-perm (Permᴰ.swap {a} {b} {l} e f) =
      subst₂
        (λ x y.
          Permᴰ (keep (test a) a (keep (test b) b (kept l)))
            (keep (test y) y (keep (test x) x (kept l))))
        e f (keep-swap (test a) (test b) a b (kept l))
  filter_entries-perm (Permᴰ.trans p q) =
      Permᴰ.trans (filter_entries-perm p) (filter_entries-perm q)
