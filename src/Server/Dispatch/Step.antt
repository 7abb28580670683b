-- ===== src/Server/Dispatch/Step.antt =====
-- One command, `executeCommand` of server/server.go, and the well-formedness of the server.
use ade_ctld.Common.{List, [], subst, sym, true, ◌∷◌, ◌≡◌}
use ade_ctld.Text.{Bytes, Unicode, codes, str_eq}
use ade_ctld.Parser.{Command, Value}
use ade_ctld.RunIndex.{Bolt}
use ade_ctld.RunIndex.Laws.{IsRunIndex}
use ade_ctld.Index.Laws.{IsIndex}
use ade_ctld.Config.{Config}
use ade_ctld.Indexer.{indexing_paths}
use ade_ctld.Indexer.Count.{run_indexing-IsIndex}
use ade_ctld.Server.State.{Filters, Host, Outcome, Server, done, panic}
use ade_ctld.Server.Listing.{handle_list, handle_list_next}
use ade_ctld.Server.Listing.Filtered.{IsFair}
use ade_ctld.Server.Listing.Response.{handle_list_lem}
use ade_ctld.Server.Listing.Next.{handle_list_next_cases}
use ade_ctld.Server.Launch.{handle_run}
use ade_ctld.Server.Launch.Laws.{handle_run_cases}
use ade_ctld.Server.Settings.{expand_paths, handle_lang, handle_reindex, string_args}
use ade_ctld.Server.Outcomes.{by_option, by_string}
use ade_ctld.Server.Dispatch.{execute_command}
use ade_ctld.Server.Dispatch.Cases.{execute_command_cases}

module _ (bolt : Bolt) where
  -- Each entry stands under its own identifier, and each stored count can be read.
  pub record IsServer (s : Server bolt.Db) : Type 0 where
    pub entries : IsIndex s.index
    pub runs : IsRunIndex bolt s.run_index

  -- A handler that returns leaves a well-formed server; one that panics is that of `list-next`.
  pub data Keeps : Command → Outcome bolt.Db → Type 0 where
    returns :
        {cmd : Command} {t : Server bolt.Db} {response : Bytes}
        → IsServer t
        → Keeps cmd (done t response)
    panics : {cmd : Command} → str_eq cmd.name (codes "list-next") ≡ true → Keeps cmd panic

module _ (bolt : Bolt) (u : Unicode) (cfg : Config) (host : Host) (s : Server bolt.Db)
    (v : IsServer bolt s) (cmd : Command) where
  abbrev Kept : Outcome bolt.Db → Type 0
  Kept o = Keeps bolt cmd o

  -- the state but for its filters or its language
  Kept-settings :
      (filters : Filters) (lang : Bytes)
      → IsServer bolt (record s { filters = filters; lang = lang })
  Kept-settings filters lang = record { entries = v.entries; runs = v.runs }

  handle_list-Kept : IsFair host → Kept (handle_list bolt u cfg host s)
  handle_list-Kept fair =
      let (l, e, _, _) = handle_list_lem bolt u cfg host s fair v.runs in rw e (returns v)

  handle_list_next-Kept :
      (args : List Value)
      → str_eq cmd.name (codes "list-next") ≡ true
      → Kept (handle_list_next bolt u cfg host s args)
  handle_list_next-Kept args named =
      handle_list_next_cases bolt u cfg host s Kept args (returns v, returns v)
        ((λ offset response e. returns v), λ offset e. panics named)

  handle_run-Kept : (args : List Value) → Kept (handle_run bolt cfg host s args)
  handle_run-Kept args =
      handle_run_cases bolt cfg host s args Kept v.runs
        ((λ why e. returns v), returns v, λ argv why e. returns v)
        (λ id pid t same runs.
          returns (record { entries = subst IsIndex (sym same.same_index) v.entries; runs = runs }))

  handle_lang-Kept : (args : List Value) → Kept (handle_lang s args)
  unfolding handle_lang
  handle_lang-Kept [] = returns v
  handle_lang-Kept (arg ∷ args) =
      by_string Kept arg.kind _ _ (λ e. returns (Kept-settings s.filters arg.str)) (returns v)

  handle_reindex-Kept : (args : List Value) → Kept (handle_reindex cfg host s args)
  unfolding handle_reindex
  handle_reindex-Kept args = by_option Kept (string_args args) _ _ (returns v) (λ paths e.
      returns (record {
        entries =
            run_indexing-IsIndex host.hidden
              (host.scan (indexing_paths cfg (expand_paths host paths)));
        runs = v.runs;
      }))

  -- A command keeps the server well-formed, whatever the command, its arguments and the system
  -- around it are, as long as the runtime goes through the index in some order; a handler that
  -- panics is the one of `list-next`.
  pub execute_command-Keeps : IsFair host → Keeps bolt cmd (execute_command bolt u cfg host s cmd)
  execute_command-Keeps fair =
      execute_command_cases bolt u cfg host s cmd Kept
        (λ filters name one. returns (Kept-settings filters s.lang)) (handle_list-Kept fair)
        (handle_list_next-Kept cmd.args) (handle_run-Kept cmd.args) (handle_lang-Kept cmd.args)
        (handle_reindex-Kept cmd.args) (returns v)
