-- ===== src/Server/Dispatch.antt =====
-- `executeCommand` and `handleConnection`.
pub mod Cases
pub mod Step
pub mod Frame
pub mod Loop
pub mod Requests
use ade_ctld.Common.{[], if◌then◌else◌, suc, zero, ℕ, ◌++◌}
use ade_ctld.Text.{Bytes, Unicode, codes, str_eq}
use ade_ctld.Parser.{
  Command, Parsed, Parser, bad_header, command, eof, new_parser, parse_error, parse_next, parser,
}
use ade_ctld.Parser.Input.{Ending}
use ade_ctld.RunIndex.{Bolt}
use ade_ctld.Config.{Config}
use ade_ctld.Server.State.{Host, Outcome, Server, done, panic, write_error}
use ade_ctld.Server.Filters.{
  handle_add_filter_name, handle_filter_cat, handle_filter_name_replace, handle_filter_path,
  handle_reset_filters,
}
use ade_ctld.Server.Listing.{handle_list, handle_list_next}
use ade_ctld.Server.Launch.{handle_run}
use ade_ctld.Server.Settings.{handle_lang, handle_reindex}

-- What a connection comes to: the last state and all that was written, the panic of a handler, or
-- no end within the fuel.
pub data Served (Db : Type 0) : Type 0 where
  closed : Server Db → Bytes → Served Db
  crashed : Served Db
  running : Served Db

module _ (bolt : Bolt) (u : Unicode) (cfg : Config) where
  -- the switch on the name of the command
  unfoldable pub execute_command : Host → Server bolt.Db → Command → Outcome bolt.Db
  execute_command host s cmd =
      if str_eq cmd.name (codes "filter-name")
      then handle_filter_name_replace s cmd
      else if str_eq cmd.name (codes "+filter-name")
      then handle_add_filter_name s cmd
      else if str_eq cmd.name (codes "+filter-cat")
      then handle_filter_cat s cmd
      else if str_eq cmd.name (codes "+filter-path")
      then handle_filter_path s cmd
      else if str_eq cmd.name (codes "0filters")
      then handle_reset_filters s
      else if str_eq cmd.name (codes "list")
      then handle_list bolt u cfg host s
      else if str_eq cmd.name (codes "list-next")
      then handle_list_next bolt u cfg host s cmd.args
      else if str_eq cmd.name (codes "run")
      then handle_run bolt cfg host s cmd.args
      else if str_eq cmd.name (codes "lang")
      then handle_lang s cmd.args
      else if str_eq cmd.name (codes "reindex")
      then handle_reindex cfg host s cmd.args
      else done s (write_error cmd.name (codes "unknown command") (codes "Command not recognized"))

  -- What a round of the loop goes on with; the first argument is the rest of the loop. The hosts
  -- are those of the commands to come.
  unfoldable pub serve_round :
      ((ℕ → Host) → Parser → Server bolt.Db → Bytes → Served bolt.Db)
      → (ℕ → Host)
      → Server bolt.Db
      → Bytes
      → Parsed × Parser
      → Served bolt.Db
  serve_round continue hosts s out (eof, p) = closed s out
  serve_round continue hosts s out (parse_error why, p) =
      continue hosts p s (out ++ write_error (codes "parser") (codes "parse error") why)
  serve_round continue hosts s out (command cmd, p) = elim (execute_command (hosts 0) s cmd) [
    | done s' response ↦ continue (λ n. hosts (suc n)) p s' (out ++ response)
    | panic ↦ crashed
  ]

  -- The loop of `handleConnection`, on fuel.
  unfoldable pub serve : ℕ → (ℕ → Host) → Parser → Server bolt.Db → Bytes → Served bolt.Db
  unfolding serve_round
  serve zero hosts p s out = running
  serve (suc f) hosts p s out = serve_round (serve f) hosts s out (parse_next p)

  -- `handleConnection`: what the client sends, and how its stream ends.
  unfoldable pub handle_connection :
      ℕ → (ℕ → Host) → Bytes → Ending → Server bolt.Db → Served bolt.Db
  unfolding serve
  handle_connection fuel hosts input ending s = elim (new_parser input ending) [
    | bad_header why ↦ closed s (write_error (codes "parser") (codes "invalid header") why)
    | parser p ↦ serve fuel hosts p s []
  ]
