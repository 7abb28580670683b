-- ===== src/Server/Dispatch/Frame.antt =====
-- Which part of the state a command of `executeCommand` (server/server.go) may change.
use ade_ctld.Common.{List, [], any, arith, false, refl, true, ◌∷◌, ◌≡◌}
use ade_ctld.Text.{Bytes, Unicode, codes, str_eq}
use ade_ctld.Parser.{Command, Value}
use ade_ctld.RunIndex.{Bolt}
use ade_ctld.Config.{Config}
use ade_ctld.Server.State.{Filters, Host, Outcome, Server, done, panic}
use ade_ctld.Server.Outcomes.{by_option, by_string}
use ade_ctld.Server.Filters.{
  handle_add_filter_name, handle_filter_cat, handle_filter_name_replace, handle_filter_path,
  handle_reset_filters,
}
use ade_ctld.Server.Listing.{handle_list, handle_list_next}
use ade_ctld.Server.Listing.Filtered.{IsFair}
use ade_ctld.Server.Listing.Response.{handle_list_lem}
use ade_ctld.Server.Listing.Next.{handle_list_next_cases}
use ade_ctld.Server.Launch.{handle_run}
use ade_ctld.Server.Launch.Laws.{handle_run_cases}
use ade_ctld.Server.Settings.{handle_lang, handle_reindex, string_args}
use ade_ctld.Server.Dispatch.{execute_command}
use ade_ctld.Server.Dispatch.Cases.{execute_command_named}
use ade_ctld.Server.Dispatch.Step.{IsServer}

-- the commands that change the filters
abbrev pub filter_commands : List Bytes
filter_commands =
    codes "filter-name"
    ∷ codes "+filter-name"
    ∷ codes "+filter-cat"
    ∷ codes "+filter-path"
    ∷ codes "0filters"
    ∷ []

-- What a command with a name leaves alone.
pub record IsFramed {Db : Type 0} (name : Bytes) (s t : Server Db) : Type 0 where
  pub index_kept : str_eq name (codes "reindex") ≡ false → t.index ≡ s.index
  pub counts_kept : str_eq name (codes "run") ≡ false → t.run_index ≡ s.run_index
  pub filters_kept : any (str_eq name) filter_commands ≡ false → t.filters ≡ s.filters
  pub lang_kept : str_eq name (codes "lang") ≡ false → t.lang ≡ s.lang

-- the state behind a handler, if it returns
pub data LeavesFramed {Db : Type 0} (name : Bytes) (s : Server Db) : Outcome Db → Type 0 where
  leaves_framed :
      {t : Server Db} {response : Bytes} → IsFramed name s t → LeavesFramed name s (done t response)
  leaves_nothing : LeavesFramed name s panic

module _ (bolt : Bolt) (u : Unicode) (cfg : Config) (host : Host) (s : Server bolt.Db)
    (v : IsServer bolt s) (cmd : Command) where
  abbrev Leaves : Outcome bolt.Db → Type 0
  Leaves o = LeavesFramed cmd.name s o

  same-Leaves : (response : Bytes) → Leaves (done s response)
  same-Leaves response = leaves_framed (record {
    index_kept = λ h. refl;
    counts_kept = λ h. refl;
    filters_kept = λ h. refl;
    lang_kept = λ h. refl;
  })

  filtered-Leaves :
      (filters : Filters) (response : Bytes)
      → any (str_eq cmd.name) filter_commands ≡ true
      → Leaves (done (record s { filters = filters }) response)
  filtered-Leaves filters response named = leaves_framed (record {
    index_kept = λ h. refl;
    counts_kept = λ h. refl;
    filters_kept = λ h. absurd (cc (named, h));
    lang_kept = λ h. refl;
  })

  handle_run-Leaves :
      str_eq cmd.name (codes "run") ≡ true → Leaves (handle_run bolt cfg host s cmd.args)
  handle_run-Leaves named =
      handle_run_cases bolt cfg host s cmd.args Leaves v.runs
        ((λ why e. same-Leaves _), same-Leaves _, λ argv why e. same-Leaves _)
        (λ id pid t same runs. leaves_framed (record {
          index_kept = λ h. same.same_index;
          counts_kept = λ h. absurd (cc (named, h));
          filters_kept = λ h. same.same_filters;
          lang_kept = λ h. same.same_lang;
        }))

  handle_lang-Leaves : str_eq cmd.name (codes "lang") ≡ true → Leaves (handle_lang s cmd.args)
  handle_lang-Leaves named = by_args cmd.args
    where
      by_args : (args : List Value) → Leaves (handle_lang s args)
      by_args [] = unfold handle_lang in same-Leaves _
      by_args (arg ∷ args) =
          unfold handle_lang in
          by_string Leaves arg.kind _ _
            (λ e. leaves_framed (record {
              index_kept = λ h. refl;
              counts_kept = λ h. refl;
              filters_kept = λ h. refl;
              lang_kept = λ h. absurd (cc (named, h));
            }))
            (same-Leaves _)

  handle_reindex-Leaves :
      str_eq cmd.name (codes "reindex") ≡ true → Leaves (handle_reindex cfg host s cmd.args)
  unfolding handle_reindex
  handle_reindex-Leaves named =
      by_option Leaves (string_args cmd.args) _ _ (same-Leaves _) (λ paths e.
        leaves_framed (record {
          index_kept = λ h. absurd (cc (named, h));
          counts_kept = λ h. refl;
          filters_kept = λ h. refl;
          lang_kept = λ h. refl;
        }))

  handle_list-Leaves : IsFair host → Leaves (handle_list bolt u cfg host s)
  handle_list-Leaves fair =
      let (l, e, _, _) = handle_list_lem bolt u cfg host s fair v.runs in rw e (same-Leaves _)

  handle_list_next-Leaves : Leaves (handle_list_next bolt u cfg host s cmd.args)
  handle_list_next-Leaves =
      handle_list_next_cases bolt u cfg host s Leaves cmd.args (same-Leaves _, same-Leaves _)
        ((λ offset response e. same-Leaves response), λ offset e. leaves_nothing)

  -- A command that returns changes the index only if it is `reindex`, the counts of runs only if it
  -- is `run`, the filters only if it is one of the five commands for them, and the language only if
  -- it is `lang`, whatever its arguments are and whatever happens around the server, which is
  -- well-formed; the runtime goes through the index in some order.
  pub execute_command-LeavesFramed :
      IsFair host → LeavesFramed cmd.name s (execute_command bolt u cfg host s cmd)
  unfolding handle_filter_name_replace handle_add_filter_name handle_filter_cat handle_filter_path
      handle_reset_filters
  execute_command-LeavesFramed fair =
      execute_command_named bolt u cfg host s cmd Leaves
        (
          (λ e. filtered-Leaves _ _ (ground arith)),
          (
            (λ e. filtered-Leaves _ _ (ground arith)),
            (
              (λ e. filtered-Leaves _ _ (ground arith)),
              (
                (λ e. filtered-Leaves _ _ (ground arith)),
                (
                  (λ e. filtered-Leaves _ _ (ground arith)),
                  (
                    (λ e. handle_list-Leaves fair),
                    (
                      (λ e. handle_list_next-Leaves),
                      (handle_run-Leaves, (handle_lang-Leaves, (handle_reindex-Leaves, tt))),
                    ),
                  ),
                ),
              ),
            ),
          ),
        )
        (same-Leaves _)
