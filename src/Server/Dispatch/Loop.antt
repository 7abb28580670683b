-- ===== src/Server/Dispatch/Loop.antt =====
-- The loop of `handleConnection` (server/server.go) over a whole connection.
use ade_ctld.Common.{
  Bool, [], arith, drop, false, if◌then◌else◌, length, refl, subst, suc, sym, take, true, zero, ℕ,
  ◌++◌, ◌+◌, ◌<◌, ◌≡◌,
}
use ade_ctld.Text.{Bytes, Unicode, codes}
use ade_ctld.Parser.{
  Command, Parsed, Parser, bad_header, command, eof, new_parser, parse_error, parse_lines,
  parse_next, parser,
}
use ade_ctld.Parser.Input.{Ending, Reader, failures, reader_of, split_lines}
use ade_ctld.Parser.Progress.{
  Progress, left, parse_lines-Progress, reads_command, reads_end, reads_error, with_reader,
}
use ade_ctld.RunIndex.{Bolt}
use ade_ctld.Config.{Config}
use ade_ctld.Server.State.{Host, Outcome, Server, done, panic, write_error}
use ade_ctld.Server.Listing.Filtered.{IsFair}
use ade_ctld.Server.Dispatch.{
  Served, closed, crashed, execute_command, handle_connection, running, serve, serve_round,
}
use ade_ctld.Server.Dispatch.Step.{IsServer, Keeps, execute_command-Keeps, panics, returns}

module _ (bolt : Bolt) where
  -- The connection has come to its end, and left a well-formed server, or the process has died.
  abbrev pub Ended : Served bolt.Db → Type 0
  Ended (closed s out) = IsServer bolt s
  Ended crashed = Unit
  Ended running = ⊥

module _ (bolt : Bolt) (u : Unicode) (cfg : Config) where
  execute-Ended :
      (continue : (ℕ → Host) → Parser → Server bolt.Db → Bytes → Served bolt.Db) (hosts : ℕ → Host)
      (p : Parser) (out : Bytes) (cmd : Command) (o : Outcome bolt.Db)
      → ((t : Server bolt.Db) (more : Bytes)
          → IsServer bolt t
          → Ended bolt (continue (λ n. hosts (suc n)) p t more))
      → Keeps bolt cmd o
      → Ended bolt (elim o [
        | done s' response ↦ continue (λ n. hosts (suc n)) p s' (out ++ response)
        | panic ↦ crashed
      ])
  execute-Ended continue hosts p out cmd (done t response) h (returns kept) =
      h t (out ++ response) kept
  execute-Ended continue hosts p out cmd panic h (panics named) = tt

  abbrev IsFairAll : (ℕ → Host) → Type 0
  IsFairAll hosts = (n : ℕ) → IsFair (hosts n)

  abbrev Continues :
      ((ℕ → Host) → Parser → Server bolt.Db → Bytes → Served bolt.Db) → Parser → Type 0
  Continues continue p =
      (hosts : ℕ → Host) (t : Server bolt.Db) (more : Bytes)
      → IsFairAll hosts
      → IsServer bolt t
      → Ended bolt (continue hosts p t more)

  round-Ended :
      (continue : (ℕ → Host) → Parser → Server bolt.Db → Bytes → Served bolt.Db) (hosts : ℕ → Host)
      (p : Parser) (s : Server bolt.Db) (out : Bytes) (r : Parsed × Reader)
      → IsFairAll hosts
      → IsServer bolt s
      → Progress p.reader r
      → ((rest : Reader) → left rest < left p.reader → Continues continue (with_reader p rest))
      → Ended bolt (serve_round bolt u cfg continue hosts s out (r.0, with_reader p r.1))
  unfolding serve_round
  round-Ended continue hosts p s out (command cmd, rest) fair v (reads_command less) h =
      execute-Ended continue hosts (with_reader p rest) out cmd
        (execute_command bolt u cfg (hosts 0) s cmd)
        (λ t more w. h rest (omega arith) (λ n. hosts (suc n)) t more (λ n. fair (suc n)) w)
        (execute_command-Keeps bolt u cfg (hosts 0) s v cmd (fair 0))
  round-Ended continue hosts p s out (parse_error why, rest) fair v (reads_error less) h =
      h rest less hosts s (out ++ write_error (codes "parser") (codes "parse error") why) fair v
  round-Ended continue hosts p s out (eof, rest) fair v reads_end h = v

  -- One round more than there are lines and errors to read ends the loop, and a server that was
  -- well-formed is so behind it, unless a handler panicked.
  pub serve-Ended :
      (f : ℕ) (hosts : ℕ → Host) (p : Parser) (s : Server bolt.Db) (out : Bytes)
      → IsFairAll hosts
      → IsServer bolt s
      → left p.reader < f
      → Ended bolt (serve bolt u cfg f hosts p s out)
  unfolding serve parse_next
  serve-Ended zero hosts p s out fair v h = absurd (omega arith)
  serve-Ended (suc f) hosts p s out fair v h =
      round-Ended (serve bolt u cfg f) hosts p s out (parse_lines [] p.reader.lines p.reader.ending)
        fair v (parse_lines-Progress [] p.reader.lines p.reader.ending)
        (λ rest less hosts' t more fair' w.
          serve-Ended f hosts' (with_reader p rest) t more fair' w (omega arith))

  opened-Ended :
      (hosts : ℕ → Host) (s : Server bolt.Db) (fuel : ℕ) (input : Bytes) (ending : Ending)
      (b c : Bool)
      → ((p : Parser)
          → p.reader ≡ reader_of (drop 5 input) ending
          → Ended bolt (serve bolt u cfg fuel hosts p s []))
      → IsServer bolt s
      → Ended bolt
          (elim (if b
            then bad_header (codes "invalid header")
            else if c
            then bad_header (codes "unsupported format: " ++ take 3 input)
            else parser (record {
              reader = reader_of (drop 5 input) ending;
              header = take 3 input;
              version = take 2 (drop 3 input);
            })) [
              | bad_header why ↦
                  closed s (write_error (codes "parser") (codes "invalid header") why)
              | parser p ↦ serve bolt u cfg fuel hosts p s []
            ])
  opened-Ended hosts s fuel input ending true c h v = v
  opened-Ended hosts s fuel input ending false true h v = v
  opened-Ended hosts s fuel input ending false false h v = h _ refl

  -- Whatever bytes a client sends, and whatever errors are met in reading before the end of its
  -- stream, the connection comes to its end within one round for each line behind the header, one
  -- for each error, and one more: the server is then well-formed if it was, unless a handler has
  -- panicked.
  pub handle_connection-Ended :
      (fuel : ℕ) (hosts : ℕ → Host) (input : Bytes) (ending : Ending) (s : Server bolt.Db)
      → IsFairAll hosts
      → IsServer bolt s
      → length (split_lines (drop 5 input)) + failures ending < fuel
      → Ended bolt (handle_connection bolt u cfg fuel hosts input ending s)
  unfolding handle_connection new_parser reader_of
  handle_connection-Ended fuel hosts input ending s fair v enough =
      opened-Ended hosts s fuel input ending _ _
        (λ p e.
          serve-Ended fuel hosts p s [] fair v
            (subst (λ (r : Reader). left r < fuel) (sym e) enough))
        v
