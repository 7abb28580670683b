-- ===== src/Server/Listing/Response.antt =====
-- The answer to `list`.
use mathlib.Core.List.{Permᴰ}
use mathlib.Core.List.Permᴰ
use ade_ctld.Text.{bytes_eq}
use ade_ctld.Common.{
  All, All-perm, EachPair, EachPair-perm, List, [], any, ap, arith, lookup, map, refl, some, sym,
  true, ℕ, ◌<◌, ◌∙◌, ◌∷◌, ◌≡◌, ◌≤◌, ◌⊎◌,
}
use ade_ctld.Text.{Bytes, Unicode, str_eq, str_eq_iff}
use ade_ctld.Index.{Entry, values, get_all}
use ade_ctld.Index.Laws.{IsIndex, IsIndex-DistinctIds}
use ade_ctld.RunIndex.{Bolt}
use ade_ctld.RunIndex.Laws.{run_count, IsRunIndex, get_frequencies_lem}
use ade_ctld.Config.{Config, list_limit}
use ade_ctld.Server.State.{Host, Server, done}
use ade_ctld.Server.Filters.{filter_entries}
use ade_ctld.Server.Listing.Sort.{frequency, insert_stable, less, slice_stable, sort_by_frequency}
use ade_ctld.Server.Listing.Order.{
  DistinctIds, NotAfter, slice_stable-perm, sort_by_frequency-perm, sort_by_frequency_lem,
}
use ade_ctld.Server.Listing.Filtered.{IsFair, filter_entries-DistinctIds, filter_entries-perm}
use ade_ctld.Server.Listing.{filtered_entries, handle_list, list_page}
use ade_ctld.Server.Listing.{sorted_page}

-- Sorting looks at the counts of the entries in the list only.
module _ (fs gs : List (Bytes × ℕ)) where
  abbrev SameCount : Entry → Type 0
  SameCount e = frequency fs e ≡ frequency gs e

  insert_stable-cong :
      (x : Entry) (l : List Entry)
      → SameCount x
      → All SameCount l
      → insert_stable (less fs) x l ≡ insert_stable (less gs) x l
  unfolding insert_stable less
  insert_stable-cong x [] hx h = refl
  insert_stable-cong x (y ∷ ys) hx (hy, hs) = rw (hx, hy, insert_stable-cong x ys hx hs)

  slice_stable-cong :
      (l : List Entry) → All SameCount l → sort_by_frequency fs l ≡ sort_by_frequency gs l
  unfolding sort_by_frequency slice_stable
  slice_stable-cong [] h = refl
  slice_stable-cong (x ∷ xs) (hx, hs) =
      insert_stable-cong x (slice_stable (less fs) xs) hx
        (All-perm SameCount (Permᴰ.symm (slice_stable-perm (less fs) xs)) hs)
      ∙ ap (insert_stable (less gs) x) (slice_stable-cong xs hs)

frequency_of :
    (fs : List (Bytes × ℕ)) (e : Entry) {n : ℕ} → lookup e.path fs ≡ some n → frequency fs e ≡ n
unfolding frequency
frequency_of fs e h = rw (h, frequency)

abbrev entry_path : Entry → Bytes
entry_path e = e.path

abbrev Asked : List Bytes → Entry → Type 0
Asked paths e = any (λ p. str_eq p e.path) paths ≡ true

Asked-cons :
    (p : Bytes) (paths : List Bytes) (l : List Entry)
    → All (Asked paths) l
    → All (Asked (p ∷ paths)) l
Asked-cons p paths [] h = tt
Asked-cons p paths (e ∷ l) (he, h) = (ground arith, Asked-cons p paths l h)

-- the counts of all entries of a list are asked for
All-Asked : (l : List Entry) → All (Asked (map entry_path l)) l
All-Asked [] = tt
All-Asked (e ∷ l) =
    (rw ((str_eq_iff e.path e.path).1 refl), Asked-cons e.path (map entry_path l) l (All-Asked l))

module _ (bolt : Bolt) (u : Unicode) (cfg : Config) where
  abbrev runs : bolt.Db → Entry → ℕ
  runs db e = run_count bolt db e.path

  -- `a` stands in front of `b`: it has been run more often, or as often and has the lower
  -- identifier.
  abbrev pub InFront : bolt.Db → Entry → Entry → Type 0
  InFront db a b = (runs db b < runs db a) ⊎ ((runs db a ≡ runs db b) × (a.id ≤ b.id))

  abbrev HasCount : bolt.Db → List (Bytes × ℕ) → Entry → Type 0
  HasCount db fs e = frequency fs e ≡ runs db e

  HasCount-Asked :
      (db : bolt.Db) (fs : List (Bytes × ℕ)) (paths : List Bytes)
      → ((j : Bytes)
          → any (λ p. str_eq p j) paths ≡ true
          → lookup j fs ≡ some (run_count bolt db j))
      → (l : List Entry) → All (Asked paths) l
      → All (HasCount db fs) l
  HasCount-Asked db fs paths h [] asked = tt
  HasCount-Asked db fs paths h (e ∷ l) (he, hs) =
      (frequency_of fs e (h e.path he), HasCount-Asked db fs paths h l hs)

  InFront-NotAfter :
      (db : bolt.Db) (fs : List (Bytes × ℕ)) (a b : Entry)
      → HasCount db fs a
      → HasCount db fs b
      → NotAfter fs a b
      → InFront db a b
  unfolding less
  InFront-NotAfter db fs a b ha hb h = ground arith

  InFront-All :
      (db : bolt.Db) (fs : List (Bytes × ℕ)) (a : Entry) (l : List Entry)
      → HasCount db fs a
      → All (HasCount db fs) l
      → All (NotAfter fs a) l
      → All (InFront db a) l
  InFront-All db fs a [] ha hl h = tt
  InFront-All db fs a (b ∷ l) ha (hb, hl) (h, hs) =
      (InFront-NotAfter db fs a b ha hb h, InFront-All db fs a l ha hl hs)

  InFront-EachPair :
      (db : bolt.Db) (fs : List (Bytes × ℕ)) (l : List Entry)
      → All (HasCount db fs) l
      → EachPair (NotAfter fs) l
      → EachPair (InFront db) l
  InFront-EachPair db fs [] h s = tt
  InFront-EachPair db fs (a ∷ l) (ha, hl) (s, ss) =
      (InFront-All db fs a l ha hl s, InFront-EachPair db fs l hl ss)

  abbrev listed : Server bolt.Db → List Entry
  listed s = filter_entries u s.filters (values s.index.entries)

  pub filtered_entries-perm :
      (host : Host) (s : Server bolt.Db)
      → IsFair host
      → Permᴰ (filtered_entries bolt u cfg host s) (listed s)
  unfolding filtered_entries get_all
  filtered_entries-perm host s fair =
      filter_entries-perm u s.filters (fair.order_perm (values s.index.entries))

  -- what `handleList` answers with, from the map of counts that it has asked for
  handle_list-frequencies :
      (host : Host) (s : Server bolt.Db)
      → IsRunIndex bolt s.run_index
      → (fs : List (Bytes × ℕ)) × (handle_list bolt u cfg host s
          ≡ done s (
              list_page s.lang
                (list_limit cfg)
                (sort_by_frequency fs (filtered_entries bolt u cfg host s))))
        × All (HasCount s.run_index fs) (filtered_entries bolt u cfg host s)
  unfolding handle_list sorted_page
  handle_list-frequencies host s v =
      let filtered = filtered_entries bolt u cfg host s in
      let (fs, e, h) = get_frequencies_lem bolt s.run_index (map entry_path filtered) v in
      (
        fs,
        ap (sorted_page bolt u cfg s filtered) e,
        HasCount-Asked s.run_index fs (map entry_path filtered) h filtered (All-Asked filtered),
      )

  -- On a well-formed run index `list` does not panic and leaves the state as it is. It shows the
  -- first page of a list that holds exactly the entries of the index which pass the filters, the
  -- entries that have been run more often first, and by ascending identifiers among equals.
  pub handle_list_lem :
      (host : Host) (s : Server bolt.Db)
      → IsFair host
      → IsRunIndex bolt s.run_index
      → (l : List Entry) × (handle_list bolt u cfg host s
          ≡ done s (list_page s.lang (list_limit cfg) l))
        × Permᴰ l (listed s)
        × EachPair (InFront s.run_index) l
  handle_list_lem host s fair v =
      let (fs, e, h) = handle_list-frequencies host s v in
      let filtered = filtered_entries bolt u cfg host s in
      let (same, sorted) = sort_by_frequency_lem fs filtered in
      (
        sort_by_frequency fs filtered,
        e,
        Permᴰ.trans same (filtered_entries-perm host s fair),
        InFront-EachPair s.run_index fs _ (All-perm _ (Permᴰ.symm same) h) sorted,
      )

  agree :
      (db : bolt.Db) (fs gs : List (Bytes × ℕ)) (l : List Entry)
      → All (HasCount db fs) l
      → All (HasCount db gs) l
      → All (SameCount fs gs) l
  agree db fs gs [] h k = tt
  agree db fs gs (e ∷ l) (he, h) (ke, k) = (he ∙ sym ke, agree db fs gs l h k)

  filtered_entries-DistinctIds :
      (host : Host) (s : Server bolt.Db)
      → IsFair host
      → IsIndex s.index
      → DistinctIds (filtered_entries bolt u cfg host s)
  unfolding filtered_entries get_all
  filtered_entries-DistinctIds host s fair idx =
      filter_entries-DistinctIds u s.filters (host.order (values s.index.entries)) (
        EachPair-perm _ (λ a b ne e. ne (sym e))
          (Permᴰ.symm (fair.order_perm (values s.index.entries))) (IsIndex-DistinctIds idx))

  -- The answer to `list` does not depend on the order in which the runtime goes through the index.
  pub handle_list-order :
      (host host' : Host) (s : Server bolt.Db)
      → IsFair host
      → IsFair host'
      → IsIndex s.index
      → IsRunIndex bolt s.run_index
      → handle_list bolt u cfg host s ≡ handle_list bolt u cfg host' s
  handle_list-order host host' s fair fair' idx v =
      let (fs, e, h) = handle_list-frequencies host s v in
      let (gs, e', h') = handle_list-frequencies host' s v in
      let filtered = filtered_entries bolt u cfg host s in
      let filtered' = filtered_entries bolt u cfg host' s in
      let p =
        Permᴰ.trans (filtered_entries-perm host s fair)
          (Permᴰ.symm (filtered_entries-perm host' s fair')) in
      e
      ∙ ap (λ l. done s (list_page s.lang (list_limit cfg) l))
          (slice_stable-cong fs gs filtered
              (agree s.run_index fs gs filtered h (All-perm _ (Permᴰ.symm p) h'))
            ∙ sort_by_frequency-perm gs p (filtered_entries-DistinctIds host s fair idx))
      ∙ sym e'
