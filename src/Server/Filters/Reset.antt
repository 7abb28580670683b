-- ===== src/Server/Filters/Reset.antt =====
-- `0filters`, `handleResetFilters` of server/server.go.
use ade_ctld.Common.{List, [], ap, refl, ◌∷◌, ◌≡◌}
use ade_ctld.Text.{Unicode, codes}
use ade_ctld.Index.{Entry}
use ade_ctld.Server.State.{Server, done, no_filters, success}
use ade_ctld.Server.Filters.{filter_entries, handle_reset_filters, matches_filters, passes}

pub filter_entries-no_filters :
    (u : Unicode) (entries : List Entry) → filter_entries u no_filters entries ≡ entries
unfolding filter_entries matches_filters passes
filter_entries-no_filters u [] = refl
filter_entries-no_filters u (e ∷ es) = ap (◌∷◌ e) (filter_entries-no_filters u es)

-- Resetting the filters succeeds, whatever they were: from then on every entry passes, and the
-- index, the counts of runs and the language stay as they are.
pub handle_reset_filters_lem :
    {Db : Type 0} (u : Unicode) (s : Server Db) (entries : List Entry)
    → (t : Server Db) × (handle_reset_filters s ≡ done t (success (codes "0filters")))
      × (filter_entries u t.filters entries ≡ entries)
      × (t.index ≡ s.index)
      × (t.run_index ≡ s.run_index)
      × (t.lang ≡ s.lang)
unfolding handle_reset_filters
handle_reset_filters_lem u s entries =
    (record s { filters = no_filters }, refl, filter_entries-no_filters u entries, refl, refl, refl)
