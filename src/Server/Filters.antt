-- ===== src/Server/Filters.antt =====
-- The filters: how the handlers collect them from the arguments, and which entries they let
-- through.
pub mod Matching
pub mod FromClient
pub mod Reset
use ade_ctld.Common.{
  Bool, List, [], all, any, false, if◌then◌else◌, length, map, not, true, ◌&&◌, ◌++◌, ◌==◌, ◌||◌,
  ◌∷◌,
}
use ade_ctld.Text.{Bytes, Unicode, codes, contains, equal_fold, str_eq, to_lower}
use ade_ctld.Parser.{Command, Value, type_bool, type_int, type_string}
use ade_ctld.Index.{Entry, values}
use ade_ctld.Server.State.{FilterExpr, Filters, Outcome, Server, done, no_filters, success}

abbrev pub and_op : Bytes
and_op = codes "and"

abbrev pub or_op : Bytes
or_op = codes "or"

abbrev pub not_op : Bytes
not_op = codes "not"

-- The operation that a boolean argument of the two name filters stands for.
unfoldable pub name_op : Value → Bytes
name_op arg =
    if str_eq arg.str not_op
    then not_op
    else if str_eq arg.str or_op || arg.bool
    then or_op
    else and_op

-- a boolean argument of the category and path filters
unfoldable pub plain_op : Value → Bytes
plain_op arg = if arg.bool then or_op else and_op

-- One round of the loop over the arguments; `op` reads a boolean.
unfoldable pub collect_arg : (Value → Bytes) → Value → FilterExpr → FilterExpr
collect_arg op arg expr = elim arg.kind [
  | type_string ↦ record expr { values = expr.values ++ arg.str ∷ [] }
  | type_bool ↦ record expr { op = op arg }
  | type_int ↦ expr
]

unfoldable pub collect : (Value → Bytes) → List Value → FilterExpr → FilterExpr
unfolding collect_arg
collect op [] expr = expr
collect op (arg ∷ args) expr = collect op args (collect_arg op arg expr)

abbrev pub start_with : Bytes → FilterExpr
start_with op = record { values = []; op = op }

-- `append(filters, expr)`, if the expression has a value
unfoldable pub add_filter : List FilterExpr → FilterExpr → List FilterExpr
add_filter filters expr = elim expr.values [ [] ↦ filters | v ∷ vs ↦ filters ++ expr ∷ [] ]

-- The list with which `filter-name` replaces the name filters.
unfoldable pub only_filter : FilterExpr → List FilterExpr
only_filter expr = elim expr.values [ [] ↦ [] | v ∷ vs ↦ expr ∷ [] ]

module _ {Db : Type 0} (s : Server Db) where
  -- `handleFilterNameReplace`
  unfoldable pub handle_filter_name_replace : Command → Outcome Db
  unfolding name_op collect only_filter
  handle_filter_name_replace cmd =
      let filters = only_filter (collect name_op cmd.args (start_with and_op)) in
      done (record s { filters = record s.filters { name_filters = filters } })
        (success (codes "filter-name"))

  -- `handleAddFilterName`
  unfoldable pub handle_add_filter_name : Command → Outcome Db
  unfolding name_op collect add_filter
  handle_add_filter_name cmd =
      let filters =
        add_filter s.filters.name_filters (collect name_op cmd.args (start_with or_op)) in
      done (record s { filters = record s.filters { name_filters = filters } })
        (success (codes "+filter-name"))

  -- `handleFilterCat`
  unfoldable pub handle_filter_cat : Command → Outcome Db
  unfolding plain_op collect add_filter
  handle_filter_cat cmd =
      let filters =
        add_filter s.filters.cat_filters (collect plain_op cmd.args (start_with and_op)) in
      done (record s { filters = record s.filters { cat_filters = filters } })
        (success (codes "+filter-cat"))

  -- `handleFilterPath`
  unfoldable pub handle_filter_path : Command → Outcome Db
  unfolding plain_op collect add_filter
  handle_filter_path cmd =
      let filters =
        add_filter s.filters.path_filters (collect plain_op cmd.args (start_with or_op)) in
      done (record s { filters = record s.filters { path_filters = filters } })
        (success (codes "+filter-path"))

  -- `handleResetFilters`
  unfoldable pub handle_reset_filters : Outcome Db
  handle_reset_filters = done (record s { filters = no_filters }) (success (codes "0filters"))

-- One of the three blocks of `matchesFilters`: no filter at all, or one that matches.
unfoldable pub passes : (FilterExpr → Bool) → List FilterExpr → Bool
passes test [] = true
passes test (f ∷ fs) = any test (f ∷ fs)

module _ (u : Unicode) where
  -- the lower-case names that are searched: the default one and the localized ones
  unfoldable pub search_names : Entry → List Bytes
  search_names entry =
      to_lower u entry.name ∷ map (λ (n : Bytes × Bytes). to_lower u n.1) entry.names

  -- one element of `matches`
  unfoldable pub value_matches : List Bytes → Bytes → Bool
  value_matches names value = any (λ name. contains name (to_lower u value)) names

  -- the switch on the operation
  unfoldable pub apply_op : Bytes → List Bool → Bool
  apply_op op matches =
      if str_eq op or_op
      then any (λ m. m) matches
      else if str_eq op and_op
      then all (λ m. m) matches && not (length matches == 0)
      else if str_eq op not_op
      then not (any (λ m. m) matches)
      else any (λ m. m) matches

  unfoldable pub matches_name_filter : Entry → FilterExpr → Bool
  unfolding search_names value_matches apply_op
  matches_name_filter entry filter =
      apply_op filter.op (map (value_matches (search_names entry)) filter.values)

  unfoldable pub matches_cat_filter : Entry → FilterExpr → Bool
  matches_cat_filter entry filter =
      any (λ cat. any (λ filter_cat. equal_fold u cat filter_cat) filter.values) entry.categories

  unfoldable pub matches_path_filter : Entry → FilterExpr → Bool
  matches_path_filter entry filter = any (λ path. contains entry.path path) filter.values

  unfoldable pub matches_filters : Filters → Entry → Bool
  unfolding passes
  matches_filters filters entry =
      if not (passes (matches_name_filter entry) filters.name_filters)
      then false
      else if not (passes (matches_cat_filter entry) filters.cat_filters)
      then false
      else if not (passes (matches_path_filter entry) filters.path_filters)
      then false
      else true

  unfoldable pub filter_entries : Filters → List Entry → List Entry
  unfolding matches_filters
  filter_entries filters [] = []
  filter_entries filters (entry ∷ entries) =
      let rest = filter_entries filters entries in
      if matches_filters filters entry then entry ∷ rest else rest
