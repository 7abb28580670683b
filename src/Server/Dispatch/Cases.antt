-- ===== src/Server/Dispatch/Cases.antt =====
-- The switch of `executeCommand` (server/server.go) for any predicate on outcomes.
use ade_ctld.Common.{All, List, [], arith, if◌then◌else◌, true, ◌∷◌, ◌≡◌}
use ade_ctld.Text.{Bytes, Unicode, codes, str_eq}
use ade_ctld.Parser.{Command}
use ade_ctld.RunIndex.{Bolt}
use ade_ctld.Config.{Config}
use ade_ctld.Parser.Input.{IsOneLine}
use ade_ctld.Server.State.{Filters, Host, Outcome, Server, done, success, write_error}
use ade_ctld.Server.Outcomes.{by_test}
use ade_ctld.Server.Filters.{
  handle_add_filter_name, handle_filter_cat, handle_filter_name_replace, handle_filter_path,
  handle_reset_filters,
}
use ade_ctld.Server.Listing.{handle_list, handle_list_next}
use ade_ctld.Server.Launch.{handle_run}
use ade_ctld.Server.Settings.{handle_lang, handle_reindex}
use ade_ctld.Server.Dispatch.{execute_command}

module _ (bolt : Bolt) (u : Unicode) (cfg : Config) (host : Host) (s : Server bolt.Db)
    (cmd : Command) where
  abbrev pub handlers : List (Bytes × Outcome bolt.Db)
  handlers =
      (codes "filter-name", handle_filter_name_replace s cmd)
      ∷ (codes "+filter-name", handle_add_filter_name s cmd)
      ∷ (codes "+filter-cat", handle_filter_cat s cmd)
      ∷ (codes "+filter-path", handle_filter_path s cmd)
      ∷ (codes "0filters", handle_reset_filters s)
      ∷ (codes "list", handle_list bolt u cfg host s)
      ∷ (codes "list-next", handle_list_next bolt u cfg host s cmd.args)
      ∷ (codes "run", handle_run bolt cfg host s cmd.args)
      ∷ (codes "lang", handle_lang s cmd.args)
      ∷ (codes "reindex", handle_reindex cfg host s cmd.args)
      ∷ []

  -- the first handler whose name is the command's, or else `o`
  abbrev first_of : List (Bytes × Outcome bolt.Db) → Outcome bolt.Db → Outcome bolt.Db
  first_of [] o = o
  first_of ((name, handled) ∷ rest) o = if str_eq cmd.name name then handled else first_of rest o

  module _ (P : Outcome bolt.Db → Type 0) where
    abbrev pub IfNamed : Bytes × Outcome bolt.Db → Type 0
    IfNamed (name, handled) = str_eq cmd.name name ≡ true → P handled

    first_of_case :
        (l : List (Bytes × Outcome bolt.Db)) (o : Outcome bolt.Db)
        → All IfNamed l
        → P o
        → P (first_of l o)
    first_of_case [] o h p = p
    first_of_case ((name, handled) ∷ rest) o (h, hs) p =
        by_test P (str_eq cmd.name name) handled (first_of rest o) h (first_of_case rest o hs p)

    pub execute_command_named :
        All IfNamed handlers
        → P (
            done s
              (write_error cmd.name (codes "unknown command") (codes "Command not recognized")))
        → P (execute_command bolt u cfg host s cmd)
    unfolding execute_command
    execute_command_named =
        first_of_case handlers
          (done s (write_error cmd.name (codes "unknown command") (codes "Command not recognized")))

    -- what has to be shown of the five handlers that only change the filters
    abbrev pub IfFilters : Type 0
    IfFilters =
        (filters : Filters) (name : Bytes)
        → IsOneLine name
        → P (done (record s { filters = filters }) (success name))

    pub execute_command_cases :
        IfFilters
        → P (handle_list bolt u cfg host s)
        → (str_eq cmd.name (codes "list-next") ≡ true
            → P (handle_list_next bolt u cfg host s cmd.args))
        → P (handle_run bolt cfg host s cmd.args)
        → P (handle_lang s cmd.args)
        → P (handle_reindex cfg host s cmd.args)
        → P (
            done s
              (write_error cmd.name (codes "unknown command") (codes "Command not recognized")))
        → P (execute_command bolt u cfg host s cmd)
    unfolding handle_filter_name_replace handle_add_filter_name handle_filter_cat handle_filter_path
        handle_reset_filters
    execute_command_cases filters list next run lang reindex = execute_command_named (
      (λ e. filters _ (codes "filter-name") (omega arith)),
      (
        (λ e. filters _ (codes "+filter-name") (omega arith)),
        (
          (λ e. filters _ (codes "+filter-cat") (omega arith)),
          (
            (λ e. filters _ (codes "+filter-path") (omega arith)),
            (
              (λ e. filters _ (codes "0filters") (omega arith)),
              ((λ e. list), (next, ((λ e. run), ((λ e. lang), ((λ e. reindex), tt))))),
            ),
          ),
        ),
      ),
    )
