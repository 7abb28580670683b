-- ===== src/Tests/ListExamples.antt =====
-- Filters, sorting and the pages of the list.
use mathlib.Core.List.{Permᴰ}
use ade_ctld.Common.{
  All, EachPair, List, Some, [], arith, drop, false, insert, int64_limit, length, ltb→lt, none,
  refl, some, take, true, ℕ, ◌+◌, ◌<◌, ◌↔◌, ◌∷◌, ◌≡◌, ◌≢◌, ◌≤◌,
}
use ade_ctld.Text.{Bytes, codes}
use ade_ctld.Index.{Entry, values, add}
use ade_ctld.Config.{list_limit}
use ade_ctld.Server.State.{FilterExpr, Filters, Server, done}
use ade_ctld.Server.Filters.{
  and_op, filter_entries, matches_cat_filter, matches_filters, matches_name_filter,
  matches_path_filter, not_op, or_op,
}
use ade_ctld.Server.Filters.Matching.{
  Passes, found_in, matches_filters_iff, matches_name_filter_iff, with_op,
}
use ade_ctld.Server.Listing.{handle_list, list_next_page, list_page, list_response}
use ade_ctld.Server.Listing.Pages.{list_next_page-panic, list_next_page_lem, page_attrs}
use ade_ctld.Server.Listing.Response.{InFront, handle_list-order, handle_list_lem}
use ade_ctld.Tests.Base.{
  ascii, daemon, machine, machine-IsFair, memory, no_runs-IsRunIndex, other_machine,
  other_machine-IsFair, programs, programs-IsIndex, settings, vi,
}

abbrev for_vi : FilterExpr
for_vi = record { values = codes "vi" ∷ []; op = or_op }

abbrev one_filter : Filters
one_filter = record { name_filters = for_vi ∷ []; cat_filters = []; path_filters = [] }

matches_filters_iff_example : (matches_filters ascii one_filter vi ≡ true) ↔ (
    Passes (matches_name_filter ascii vi) (for_vi ∷ [])
    × Passes (matches_cat_filter ascii vi) []
    × Passes (matches_path_filter ascii vi) [])
matches_filters_iff_example = matches_filters_iff ascii one_filter vi

matches_name_filter_iff_example :
    ((matches_name_filter ascii vi (with_op ascii or_op (codes "vi" ∷ [])) ≡ true)
      ↔ Some (found_in ascii vi) (codes "vi" ∷ []))
    × ((matches_name_filter ascii vi (with_op ascii and_op (codes "vi" ∷ [])) ≡ true)
        ↔ ((codes "vi" ∷ [] ≢ []) × All (λ v. found_in ascii vi v ≡ true) (codes "vi" ∷ [])))
    × ((matches_name_filter ascii vi (with_op ascii not_op (codes "vi" ∷ [])) ≡ true)
        ↔ All (λ v. found_in ascii vi v ≡ false) (codes "vi" ∷ []))
matches_name_filter_iff_example = matches_name_filter_iff ascii vi (codes "vi" ∷ [])

abbrev shelf : List Entry
shelf = values programs.entries

abbrev counts : List (Bytes × ℕ)
counts = (codes "/bin/vi", 3) ∷ []

length-shelf : length shelf ≡ 3
unfolding values add insert
length-shelf = refl

list_next_page_lem_example :
    list_next_page (codes "en") 1 2 shelf
    ≡ some (list_response (page_attrs 1 2 (length shelf)) (codes "en") (take 2 (drop 1 shelf)))
list_next_page_lem_example =
    list_next_page_lem (codes "en") 1 2 shelf (omega (arith, length-shelf))
      (ltb→lt 3 int64_limit refl)

abbrev huge : ℕ
huge = 9223372036854775807

list_next_page-panic_example :
    (list_next_page (codes "en") 1 huge shelf ≡ none)
    ↔ ((1 < length shelf) × (int64_limit ≤ 1 + huge))
list_next_page-panic_example =
    list_next_page-panic (codes "en") 1 huge shelf (ltb→lt 1 int64_limit refl)
      (ltb→lt huge int64_limit refl)

handle_list_lem_example :
    (l : List Entry) × (handle_list memory ascii settings machine daemon
      ≡ done daemon (list_page daemon.lang (list_limit settings) l))
    × Permᴰ l (filter_entries ascii daemon.filters (values daemon.index.entries))
    × EachPair (InFront memory ascii settings daemon.run_index) l
handle_list_lem_example =
    handle_list_lem memory ascii settings machine daemon machine-IsFair no_runs-IsRunIndex

handle_list-order_example :
    handle_list memory ascii settings machine daemon
    ≡ handle_list memory ascii settings other_machine daemon
handle_list-order_example =
    handle_list-order memory ascii settings machine other_machine daemon machine-IsFair
      other_machine-IsFair programs-IsIndex no_runs-IsRunIndex

abbrev narrowed : Server memory.Db
narrowed = record daemon { filters = one_filter }
