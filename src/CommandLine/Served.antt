-- ===== src/CommandLine/Served.antt =====
-- What the server makes of the commands of the command line client (cmd/ade-exe-cli/main.go).
use ade_ctld.Common.{
  All, List, [], ap, append-nil, append_assoc, arith, length, refl, sym, ℕ, ◌++◌, ◌<◌, ◌∙◌, ◌∷◌,
  ◌≡◌,
}
use ade_ctld.Text.{Bytes, Unicode, codes, join, str_eq}
use ade_ctld.Parser.{string_value}
use ade_ctld.Parser.Input.{IsOneLine, at_end, split_lines}
use ade_ctld.Parser.Laws.{IsKnown}
use ade_ctld.RunIndex.{Bolt}
use ade_ctld.Config.{Config}
use ade_ctld.Client.Send.{Argument, other, proto_ver, send_command}
use ade_ctld.Wire.Lines.{means_other}
use ade_ctld.Wire.Request.{none_left, one_more}
use ade_ctld.Wire.Session.{all_read, next_request}
use ade_ctld.Server.State.{Host, Server, write_error, write_response}
use ade_ctld.Server.Launch.{handle_run, run_args}
use ade_ctld.Server.Listing.{handle_list_next}
use ade_ctld.Server.Settings.{handle_lang}
use ade_ctld.Server.Answers.Texts.{IsOneLine-append}
use ade_ctld.Server.Dispatch.{Served, closed, execute_command, handle_connection}
use ade_ctld.Server.Dispatch.Requests.{and_then, handle_connection-requests, run_commands}
use ade_ctld.CommandLine.{main, send}

abbrev bracketed : List Bytes → Bytes
bracketed values = codes "[" ++ (join values (codes " ") ++ codes "]")

join-IsOneLine : (values : List Bytes) → All IsOneLine values → IsOneLine (join values (codes " "))
unfolding join
join-IsOneLine [] h = tt
join-IsOneLine (v ∷ []) (h, hs) = h
join-IsOneLine (v ∷ w ∷ values) (h, hs) =
    IsOneLine-append v _ h
      (IsOneLine-append (codes " ") _ (omega arith) (join-IsOneLine (w ∷ values) hs))

bracketed-IsOneLine : (values : List Bytes) → All IsOneLine values → IsOneLine (bracketed values)
bracketed-IsOneLine values h =
    IsOneLine-append (codes "[") _ (omega arith)
      (IsOneLine-append _ (codes "]") (join-IsOneLine values h) (omega arith))

module _ (bolt : Bolt) (u : Unicode) (cfg : Config) where
  -- The client sends something, and a connection that carries it ends so, within any fuel that is
  -- enough for its lines.
  pub record Ends (args : List Bytes) (hosts : ℕ → Host) (s : Server bolt.Db)
      (result : Served bolt.Db) : Type 0 where
    pub name : Bytes
    pub arguments : List Argument
    pub sent : main args ≡ send name arguments
    pub served :
        (fuel : ℕ)
        → length (split_lines (send_command name arguments)) < fuel
        → handle_connection bolt u cfg fuel hosts
            (proto_ver ++ send_command name arguments)
            at_end
            s
          ≡ result

  Ends-other :
      (args : List Bytes) (hosts : ℕ → Host) (s : Server bolt.Db) (name printed : Bytes)
      (result : Served bolt.Db)
      → main args ≡ send name (other printed ∷ [])
      → IsKnown name
      → IsOneLine printed
      → and_then bolt u cfg
          (execute_command bolt u cfg
            (hosts 0)
            s
            (record { name = name; args = string_value (printed ++ codes "\"") ∷ [] }))
          closed
          []
        ≡ result
      → Ends args hosts s result
  unfolding run_commands
  Ends-other args hosts s name printed result sent known one e = record {
    name = name;
    arguments = other printed ∷ [];
    sent = sent;
    served = λ fuel enough.
        let m = next_request known (one_more (means_other one) none_left) all_read in
        let whole = append-nil (send_command name (other printed ∷ [])) in
        ap (λ input. handle_connection bolt u cfg fuel hosts (proto_ver ++ input) at_end s)
          (sym whole)
        ∙ handle_connection-requests bolt u cfg fuel hosts _ _ s m (rw whole enough)
        ∙ e;
  }

  -- With arguments that hold no line feed, the command line client cannot start a program, ask for a
  -- further page or choose a language. Whatever such identifier follows `run`, the server answers
  -- that it is missing; whatever such arguments follow `list-next`, it answers that the offset is
  -- missing; its state does not change. Behind `lang` it takes the text in brackets, with a quotation
  -- mark, for the language.
  pub main_lem :
      (first : Bytes) (args : List Bytes) (hosts : ℕ → Host) (s : Server bolt.Db)
      → All IsOneLine (first ∷ args)
      → Ends (codes "run" ∷ first ∷ args) hosts s (
          closed s (
            write_error
              (codes "run")
              (codes "missing id")
              (codes "run command requires an id parameter")))
        × Ends (codes "list-next" ∷ first ∷ args) hosts s (
            closed s (
              write_error
                (codes "list-next")
                (codes "missing offset")
                (codes "list-next command requires an offset parameter")))
        × Ends (codes "lang" ∷ first ∷ args) hosts s (
            closed
              (record s { lang = codes "[" ++ (first ++ codes "]\"") })
              (write_response
                (codes "cmd: lang\nstatus: 0\nlang: [" ++ (first ++ codes "]\"\n\n\n"))))
  unfolding main execute_command handle_run run_args handle_list_next handle_lang str_eq join
  main_lem first args hosts s (h, hs) = (
    Ends-other (codes "run" ∷ first ∷ args) hosts s (codes "run") (bracketed (first ∷ [])) _ refl
        refl (bracketed-IsOneLine (first ∷ []) (h, tt)) refl,
    Ends-other (codes "list-next" ∷ first ∷ args) hosts s (codes "list-next")
        (bracketed (first ∷ args)) _ refl refl (bracketed-IsOneLine (first ∷ args) (h, hs)) refl,
    Ends-other (codes "lang" ∷ first ∷ args) hosts s (codes "lang") (bracketed (first ∷ [])) _ refl
        refl (bracketed-IsOneLine (first ∷ []) (h, tt)) (simp append_assoc),
  )
