-- ===== src/Server/Answers/Commands.antt =====
-- The answer to a command, as the client reads it.
use mathlib.Core.List.Permᴰ
use ade_ctld.Common.{All, All-perm, List, [], arith, some, subst, ◌++◌, ◌∷◌, ◌≡◌}
use ade_ctld.Text.{Bytes, Unicode, codes}
use ade_ctld.Parser.{Command, Value}
use ade_ctld.Parser.Input.{Ending, IsOneLine}
use ade_ctld.Index.{values}
use ade_ctld.RunIndex.{Bolt}
use ade_ctld.Config.{Config, list_limit}
use ade_ctld.Indexer.Count.{BringsFine}
use ade_ctld.Wire.Frame.{frame_body}
use ade_ctld.Wire.Answers.{attrs_of, read_response-frame}
use ade_ctld.Client.Receive.{Attrs, Response, read_response}
use ade_ctld.Client.Receive
use ade_ctld.Server.State.{Host, Outcome, Server, done, panic, start_error, write_error}
use ade_ctld.Server.Outcomes.{by_option, by_string}
use ade_ctld.Server.Listing.{filtered_entries, handle_list, handle_list_next}
use ade_ctld.Server.Listing.Filtered.{IsFair, filter_entries-All}
use ade_ctld.Server.Listing.Response.{filtered_entries-perm, handle_list_lem}
use ade_ctld.Server.Listing.Next.{handle_list_next_cases}
use ade_ctld.Server.Listing.Lines.{HasCleanNames, list_next_page-IsFrame, list_page-IsFrame}
use ade_ctld.Server.Launch.{handle_run}
use ade_ctld.Server.Launch.Laws.{IsCleanReason, handle_run_cases, run_args-IsCleanReason}
use ade_ctld.Server.Settings.{handle_lang, handle_reindex, string_args}
use ade_ctld.Server.Dispatch.{execute_command}
use ade_ctld.Server.Dispatch.Step.{IsServer}
use ade_ctld.Server.Dispatch.Cases.{execute_command_cases}
use ade_ctld.Server.Answers.Texts.{
  IsFrame, attribute-IsFrame, format_uint-IsOneLine, run_response-IsFrame, success-IsFrame,
  write_error-IsFrame,
}

-- No text that the server may show holds a line feed.
pub record IsClean {Db : Type 0} (s : Server Db) : Type 0 where
  pub clean_lang : IsOneLine s.lang
  pub clean_entries : All HasCleanNames (values s.index.entries)

-- what reaches the server is a line, or is cut out of one
pub record IsCleanCommand (cmd : Command) : Type 0 where
  pub clean_command : IsOneLine cmd.name
  pub clean_args : All (λ (v : Value). IsOneLine v.str) cmd.args

-- The system reports in one line that a program cannot be started, and no name that a scan finds
-- holds a line feed.
pub record IsCleanHost (host : Host) : Type 0 where
  pub clean_errors :
      (argv : List Bytes) (why : Bytes) → host.start argv ≡ start_error why → IsOneLine why
  pub clean_scan : (paths : List Bytes) → All (BringsFine HasCleanNames) (host.scan paths)

-- The answer, if there is one, can be taken apart.
pub data Framed {Db : Type 0} : Outcome Db → Type 0 where
  framed : {t : Server Db} {response : Bytes} → IsFrame response → Framed (done t response)
  no_answer : Framed panic

module _ (bolt : Bolt) (u : Unicode) (cfg : Config) (host : Host) (s : Server bolt.Db)
    (cmd : Command) (v : IsServer bolt s) (clean : IsClean s) (fair : IsFair host)
    (clean_host : IsCleanHost host) (clean_cmd : IsCleanCommand cmd) where
  abbrev Answered : Outcome bolt.Db → Type 0
  Answered o = Framed o

  error :
      (t : Server bolt.Db) (name err_type desc : Bytes)
      → IsOneLine name
      → IsOneLine err_type
      → IsOneLine desc
      → Answered (done t (write_error name err_type desc))
  error t name err_type desc hn he hd = framed (write_error-IsFrame name err_type desc hn he hd)

  filtered_entries-HasCleanNames : All HasCleanNames (filtered_entries bolt u cfg host s)
  filtered_entries-HasCleanNames =
      All-perm HasCleanNames (Permᴰ.symm (filtered_entries-perm bolt u cfg host s fair))
        (filter_entries-All u s.filters HasCleanNames _ clean.clean_entries)

  handle_list-Framed : Answered (handle_list bolt u cfg host s)
  handle_list-Framed =
      let (l, e, same, _) = handle_list_lem bolt u cfg host s fair v.runs in
      rw e (
        framed (
          list_page-IsFrame s.lang (list_limit cfg) l (
            All-perm HasCleanNames (Permᴰ.symm same)
              (filter_entries-All u s.filters HasCleanNames _ clean.clean_entries))))

  handle_list_next-Framed : Answered (handle_list_next bolt u cfg host s cmd.args)
  handle_list_next-Framed =
      handle_list_next_cases bolt u cfg host s Answered cmd.args
        (
          error s _ _ _ (omega arith) (omega arith) (omega arith),
          error s _ _ _ (omega arith) (omega arith) (omega arith),
        )
        (
          (λ offset response e.
              framed (
                list_next_page-IsFrame s.lang offset _ _ response filtered_entries-HasCleanNames
                  e)),
          λ offset e. no_answer,
        )

  handle_run-Framed : Answered (handle_run bolt cfg host s cmd.args)
  handle_run-Framed =
      handle_run_cases bolt cfg host s cmd.args Answered v.runs
        (
          (λ why e.
              error s _ _ why (omega arith) (omega arith)
                (subst IsCleanReason e (run_args-IsCleanReason cmd.args))),
          error s _ _ _ (omega arith) (omega arith) (omega arith),
          λ argv why e.
              error s _ _ why (omega arith) (omega arith) (clean_host.clean_errors argv why e),
        )
        (λ id pid t same runs. framed (run_response-IsFrame id pid))

  handle_lang-Framed :
      (args : List Value)
      → All (λ (v : Value). IsOneLine v.str) args
      → Answered (handle_lang s args)
  unfolding handle_lang
  handle_lang-Framed [] h = error s _ _ _ (omega arith) (omega arith) (omega arith)
  handle_lang-Framed (arg ∷ args) (h, hs) =
      by_string Answered arg.kind _ _
        (λ e. framed (
          attribute-IsFrame (codes "cmd: lang") (codes "lang: ") arg.str (omega arith) (omega arith)
            h))
        (error s _ _ _ (omega arith) (omega arith) (omega arith))

  handle_reindex-Framed : (args : List Value) → Answered (handle_reindex cfg host s args)
  unfolding handle_reindex
  handle_reindex-Framed args =
      by_option Answered (string_args args) _ _
        (error s _ _ _ (omega arith) (omega arith) (omega arith))
        (λ paths e. framed (
          attribute-IsFrame (codes "cmd: reindex") (codes "indexed: ") _ (omega arith) (omega arith)
            (format_uint-IsOneLine _)))

  pub execute_command-Framed : Answered (execute_command bolt u cfg host s cmd)
  execute_command-Framed =
      execute_command_cases bolt u cfg host s cmd Answered
        (λ filters name one. framed (success-IsFrame name one)) handle_list-Framed
        (λ named. handle_list_next-Framed) handle_run-Framed
        (handle_lang-Framed cmd.args clean_cmd.clean_args) (handle_reindex-Framed cmd.args)
        (error s _ _ _ clean_cmd.clean_command (omega arith) (omega arith))

  Framed-IsFrame :
      {t : Server bolt.Db} {response : Bytes} → Answered (done t response) → IsFrame response
  Framed-IsFrame (framed f) = f

  -- The client reads the answer to any command up to its last byte and no further, whatever
  -- follows, and gets some attributes and a body out of it. The server has to be well-formed, and
  -- neither its texts, nor the command, nor the errors of the system may hold a line feed.
  pub execute_command-read_response :
      (t : Server bolt.Db) (response rest : Bytes) (ending : Ending)
      → execute_command bolt u cfg host s cmd ≡ done t response
      → (attrs : Attrs) × (text : Bytes) × (read_response (response ++ rest) ending
          ≡ some (Receive.response attrs text rest))
  execute_command-read_response t response rest ending e =
      let f = Framed-IsFrame (subst Answered e execute_command-Framed) in
      (
        attrs_of f.headers,
        frame_body f.texts,
        rw f.same (read_response-frame f.headers f.texts rest ending f.marked f.body_marked),
      )
