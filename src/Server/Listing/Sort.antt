-- ===== src/Server/Listing/Sort.antt =====
-- `sortByRunFrequency`. `sort.SliceStable` is a stable sort by `less`; any such sort gives the
-- same list for a strict weak order, and this is insertion from the end.
use ade_ctld.Text.{bytes_eq}
use ade_ctld.Common.{Bool, List, [], if◌then◌else◌, lookup, ltb, none, not, some, ℕ, ◌==◌, ◌∷◌}
use ade_ctld.Text.{Bytes}
use ade_ctld.Index.{Entry}

-- `frequencies[path]`: zero for a path that is not in the map
unfoldable pub frequency : List (Bytes × ℕ) → Entry → ℕ
frequency frequencies entry = elim (lookup entry.path frequencies) [ some n ↦ n | none ↦ 0 ]

-- the comparison of the sort
unfoldable pub less : List (Bytes × ℕ) → Entry → Entry → Bool
less frequencies a b =
    if not (frequency frequencies a == frequency frequencies b)
    then ltb (frequency frequencies b) (frequency frequencies a)
    else ltb a.id b.id

-- an element goes in front of the first one that is not less than it
unfoldable pub insert_stable {ℓ} : {A : Type ℓ} → (A → A → Bool) → A → List A → List A
insert_stable lt x [] = x ∷ []
insert_stable lt x (y ∷ ys) = if lt y x then y ∷ insert_stable lt x ys else x ∷ y ∷ ys

unfoldable pub slice_stable {ℓ} : {A : Type ℓ} → (A → A → Bool) → List A → List A
unfolding insert_stable
slice_stable lt [] = []
slice_stable lt (x ∷ xs) = insert_stable lt x (slice_stable lt xs)

unfoldable pub sort_by_frequency : List (Bytes × ℕ) → List Entry → List Entry
unfolding slice_stable less
sort_by_frequency frequencies entries = slice_stable (less frequencies) entries
