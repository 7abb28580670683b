-- ===== src/Server/Dispatch/Requests.antt =====
-- A connection of server/server.go on the requests of a client (client/exe/client.go).
use ade_ctld.Common.{List, [], ap, arith, length, refl, suc, zero, ℕ, ◌++◌, ◌<◌, ◌∙◌, ◌∷◌, ◌≡◌}
use ade_ctld.Text.{Bytes, Unicode}
use ade_ctld.Parser.{Command, Parser, parse_lines, parse_next}
use ade_ctld.Parser.Input.{at_end, reader_of, split_lines}
use ade_ctld.RunIndex.{Bolt}
use ade_ctld.Config.{Config}
use ade_ctld.Client.Send.{proto_ver}
use ade_ctld.Wire.Request.{parse_next-send_command}
use ade_ctld.Wire.Session.{
  MeansRequests, Request, all_read, length-split_lines, new_parser-proto_ver, next_request,
  requests, text_parser,
}
use ade_ctld.Server.State.{Host, Outcome, Server, done, panic}
use ade_ctld.Server.Dispatch.{
  Served, closed, crashed, execute_command, handle_connection, serve, serve_round,
}

module _ (bolt : Bolt) (u : Unicode) (cfg : Config) where
  -- what becomes of a command: the state behind it and what has been written are handed on
  abbrev pub and_then :
      Outcome bolt.Db → (Server bolt.Db → Bytes → Served bolt.Db) → Bytes → Served bolt.Db
  and_then (done t response) next out = next t (out ++ response)
  and_then panic next out = crashed

  -- The commands one after the other, each in the state that the one before it has left, and the
  -- answers one behind the other.
  unfoldable pub run_commands : (ℕ → Host) → List Command → Server bolt.Db → Bytes → Served bolt.Db
  run_commands hosts [] s out = closed s out
  run_commands hosts (cmd ∷ cmds) s out =
      and_then (execute_command bolt u cfg (hosts 0) s cmd) (run_commands (λ n. hosts (suc n)) cmds)
        out

  serve_round-command :
      (f : ℕ) (hosts : ℕ → Host) (s : Server bolt.Db) (out : Bytes) (cmd : Command) (q : Parser)
      (cmds : List Command)
      → ((t : Server bolt.Db) (more : Bytes)
          → serve bolt u cfg f (λ n. hosts (suc n)) q t more
            ≡ run_commands (λ n. hosts (suc n)) cmds t more)
      → (o : Outcome bolt.Db)
      → (elim o [
        | done s' response ↦ serve bolt u cfg f (λ n. hosts (suc n)) q s' (out ++ response)
        | panic ↦ crashed
      ])
        ≡ and_then o (run_commands (λ n. hosts (suc n)) cmds) out
  serve_round-command f hosts s out cmd q cmds h (done t response) = h t (out ++ response)
  serve_round-command f hosts s out cmd q cmds h panic = refl

  serve-requests :
      (f : ℕ) (hosts : ℕ → Host) {qs : List Request} {cmds : List Command} (s : Server bolt.Db)
      (out : Bytes)
      → length (split_lines (requests qs)) < f
      → MeansRequests qs cmds
      → serve bolt u cfg f hosts (text_parser (requests qs) at_end) s out
        ≡ run_commands hosts cmds s out
  unfolding serve run_commands reader_of
  serve-requests zero hosts s out h m = absurd (omega arith)
  serve-requests (suc f) hosts s out h all_read =
      unfold parse_next parse_lines split_lines serve_round in refl
  serve-requests (suc f) hosts s out h (next_request {q} {qs} {vs} {cs} known ms m) =
      let p = text_parser (requests (q ∷ qs)) at_end in
      let c : Command = record { name = q.name; args = vs } in
      ap (serve_round bolt u cfg (serve bolt u cfg f) hosts s out)
        (parse_next-send_command p q.name q.arguments vs (requests qs) refl known ms)
      ∙ (unfold serve_round in
          serve_round-command f hosts s out c (text_parser (requests qs) at_end) cs
            (λ t more.
              serve-requests f (λ n. hosts (suc n)) t more
                (omega (arith, length-split_lines q.name (requests qs) known ms)) m)
            (execute_command bolt u cfg (hosts 0) s c))

  -- A connection on which a client introduces itself, sends known commands with any arguments that
  -- have a meaning, and ends its stream, does what these commands do one after the other: it ends
  -- in the state and with the answers of the sequential run, or with its panic. One round for each
  -- line and one more are enough.
  pub handle_connection-requests :
      (fuel : ℕ) (hosts : ℕ → Host) (qs : List Request) (cmds : List Command) (s : Server bolt.Db)
      → MeansRequests qs cmds
      → length (split_lines (requests qs)) < fuel
      → handle_connection bolt u cfg fuel hosts (proto_ver ++ requests qs) at_end s
        ≡ run_commands hosts cmds s []
  unfolding handle_connection
  handle_connection-requests fuel hosts qs cmds s m enough =
      rw (new_parser-proto_ver (requests qs) at_end, handle_connection)
        (serve-requests fuel hosts s [] enough m)
