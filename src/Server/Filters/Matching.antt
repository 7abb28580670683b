-- ===== src/Server/Filters/Matching.antt =====
-- What the filters let through.
use ade_ctld.Common.{
  All, Bool, List, Some, [], all, all-map, all_iff, any, any-map, any_iff, ap, arith, false,
  if◌then◌else◌, inl, inr, length, map, not, not-any_iff, refl, suc, true, ℕ, ◌&&◌, ◌==◌, ◌↔◌, ◌∷◌,
  ◌≡◌, ◌≢◌, ◌⊎◌,
}
use ade_ctld.Text.{Bytes, Unicode, contains, equal_fold, str_eq, to_lower}
use ade_ctld.Index.{Entry}
use ade_ctld.Server.State.{FilterExpr, Filters}
use ade_ctld.Server.Filters.{
  and_op, matches_cat_filter, matches_filters, matches_name_filter, matches_path_filter, not_op,
  or_op, passes, search_names, value_matches,
}

-- an empty group of filters lets everything through, another one what one of its filters does
abbrev pub Passes : (FilterExpr → Bool) → List FilterExpr → Type 0
Passes test filters = (filters ≡ []) ⊎ Some test filters

passes→Passes :
    (test : FilterExpr → Bool) (filters : List FilterExpr)
    → passes test filters ≡ true
    → Passes test filters
unfolding passes
passes→Passes test [] h = inl refl
passes→Passes test (f ∷ fs) h = inr ((any_iff test (f ∷ fs)).0 h)

Passes→passes :
    (test : FilterExpr → Bool) (filters : List FilterExpr)
    → Passes test filters
    → passes test filters ≡ true
unfolding passes
Passes→passes test [] h = refl
Passes→passes test (f ∷ fs) (inl e) = cc
Passes→passes test (f ∷ fs) (inr s) = (any_iff test (f ∷ fs)).1 s

all_three :
    (a b c : Bool)
    → ((if not a then false else if not b then false else if not c then false else true) ≡ true)
      ↔ ((a ≡ true) × (b ≡ true) × (c ≡ true))
all_three a b c = ground arith

not_empty : (n : ℕ) → not (suc n == 0) ≡ true
not_empty n = ground arith

module _ (u : Unicode) where
  -- An entry is listed exactly when each of the three groups of filters (names, categories, paths)
  -- lets it through: a group that is empty, or that has a filter which the entry matches.
  pub matches_filters_iff :
      (filters : Filters) (entry : Entry)
      → (matches_filters u filters entry ≡ true) ↔ (
          Passes (matches_name_filter u entry) filters.name_filters
          × Passes (matches_cat_filter u entry) filters.cat_filters
          × Passes (matches_path_filter u entry) filters.path_filters)
  unfolding matches_filters
  matches_filters_iff filters entry =
      let names = matches_name_filter u entry in
      let cats = matches_cat_filter u entry in
      let paths = matches_path_filter u entry in
      let three =
        all_three (passes names filters.name_filters) (passes cats filters.cat_filters)
          (passes paths filters.path_filters) in
      (
        (λ h.
            let (a, b, c) = three.0 h in
            (passes→Passes names _ a, passes→Passes cats _ b, passes→Passes paths _ c)),
        λ h.
            three.1
              (Passes→passes names _ h.0, Passes→passes cats _ h.1, Passes→passes paths _ h.2),
      )

  -- A value that is looked for occurs in a name of the entry, up to case.
  pub value_matches_iff :
      (names : List Bytes) (value : Bytes)
      → (value_matches u names value ≡ true) ↔ Some (λ name. contains name (to_lower u value)) names
  unfolding value_matches
  value_matches_iff names value = any_iff _ names

  abbrev pub with_op : Bytes → List Bytes → FilterExpr
  with_op op values = record { values = values; op = op }

  abbrev pub found_in : Entry → Bytes → Bool
  found_in entry value = value_matches u (search_names u entry) value

  matches-or :
      (entry : Entry) (values : List Bytes)
      → matches_name_filter u entry (with_op or_op values) ≡ any (found_in entry) values
  unfolding matches_name_filter str_eq
  matches-or entry values = any-map (λ m. m) (found_in entry) values

  matches-and :
      (entry : Entry) (values : List Bytes)
      → matches_name_filter u entry (with_op and_op values)
        ≡ (all (found_in entry) values && not (length values == 0))
  unfolding matches_name_filter str_eq
  matches-and entry [] = refl
  matches-and entry (v ∷ vs) = cc (
    all-map (λ m. m) (found_in entry) vs,
    not_empty (length vs),
    not_empty (length (map (found_in entry) vs)),
  )

  matches-not :
      (entry : Entry) (values : List Bytes)
      → matches_name_filter u entry (with_op not_op values) ≡ not (any (found_in entry) values)
  unfolding matches_name_filter str_eq
  matches-not entry values = ap not (any-map (λ m. m) (found_in entry) values)

  -- The three operations of a name filter: `or` wants one of the values in a name of the entry,
  -- `and` wants a value and all of them, `not` wants none.
  pub matches_name_filter_iff :
      (entry : Entry) (values : List Bytes)
      → ((matches_name_filter u entry (with_op or_op values) ≡ true) ↔ Some (found_in entry) values)
        × ((matches_name_filter u entry (with_op and_op values) ≡ true)
            ↔ ((values ≢ []) × All (λ v. found_in entry v ≡ true) values))
        × ((matches_name_filter u entry (with_op not_op values) ≡ true)
            ↔ All (λ v. found_in entry v ≡ false) values)
  matches_name_filter_iff entry values =
      let with_or = any_iff (found_in entry) values in
      let with_and = all_iff (found_in entry) values in
      let without = not-any_iff (found_in entry) values in
      (
        rw (matches-or entry values) with_or,
        rw (matches-and entry values) (and_case values with_and),
        rw (matches-not entry values)
            ((λ h. without.0 (not_true _ h)), (λ h. ap not (without.1 h))),
      )
    where
      not_true : (b : Bool) → not b ≡ true → b ≡ false
      not_true b h = ground arith

      and_case :
          (vs : List Bytes)
          → (all (found_in entry) vs ≡ true) ↔ All (λ v. found_in entry v ≡ true) vs
          → ((all (found_in entry) vs && not (length vs == 0)) ≡ true)
            ↔ ((vs ≢ []) × All (λ v. found_in entry v ≡ true) vs)
      and_case [] e = ((λ h. absurd (cc)), (λ h. absurd (h.0 refl)))
      and_case (v ∷ vs) e =
          ((λ h. (cc, e.0 (ground arith))), (λ h. rw (e.1 h.1) (not_empty (length vs))))

  -- A category filter lets an entry through when it has one of the categories, up to case,
  -- whatever the operation of the filter is.
  pub matches_cat_filter_iff :
      (entry : Entry) (filter : FilterExpr)
      → (matches_cat_filter u entry filter ≡ true)
        ↔ Some (λ cat. any (λ wanted. equal_fold u cat wanted) filter.values) entry.categories
  unfolding matches_cat_filter
  matches_cat_filter_iff entry filter = any_iff _ entry.categories
