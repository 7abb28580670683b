-- ===== src/Wire/Session.antt =====
-- A whole connection: the header that `NewClient` writes and the requests behind it.
use ade_ctld.Common.{
  List, [], ap, append-nil, append_assoc, arith, false, inl, length, ltb, refl, some, suc, zero, ℕ,
  ◌++◌, ◌<◌, ◌∙◌, ◌∷◌, ◌≡◌,
}
use ade_ctld.Text.{Bytes, codes, str_eq}
use ade_ctld.Parser.{
  Command, Parser, Value, command, new_parser, parse_lines, parse_next, parser, read_all_commands,
  read_commands, read_round,
}
use ade_ctld.Parser.Input.{Ending, at_end, reader_of, split_lines}
use ade_ctld.Parser.Laws.{IsKnown, read_line-IsKnown}
use ade_ctld.Client.Send.{Argument, format_argument, line_of, proto_ver, send_command}
use ade_ctld.Wire.Lines.{format_argument-Carries}
use ade_ctld.Wire.Request.{MeansAll, none_left, one_more, parse_next-send_command, split_line_of}

pub record Request : Type 0 where
  pub name : Bytes
  pub arguments : List Argument

-- what a client writes for its requests
abbrev pub requests : List Request → Bytes
requests [] = []
requests (q ∷ qs) = send_command q.name q.arguments ++ requests qs

-- The commands that the receiver of the requests gets.
pub data MeansRequests : List Request → List Command → Type 0 where
  all_read : MeansRequests [] []
  next_request :
      {q : Request} {qs : List Request} {vs : List Value} {cs : List Command}
      → IsKnown q.name
      → MeansAll q.arguments vs
      → MeansRequests qs cs
      → MeansRequests (q ∷ qs) (record { name = q.name; args = vs } ∷ cs)

-- the parser of a connection on which the client has introduced itself
abbrev pub text_parser : Bytes → Ending → Parser
text_parser input ending = record {
  reader = reader_of input ending;
  header = codes "TXT";
  version = codes "01";
}

ltb_five : (n : ℕ) → ltb (suc (suc (suc (suc (suc n))))) 5 ≡ false
ltb_five n = ground arith

pub new_parser-proto_ver :
    (input : Bytes) (ending : Ending)
    → new_parser (proto_ver ++ input) ending ≡ parser (text_parser input ending)
unfolding new_parser str_eq
new_parser-proto_ver input ending = rw (ltb_five (length input))

-- a request is at least one line
pub length-split_lines :
    (name : Bytes) {args : List Argument} {vs : List Value} (rest : Bytes)
    → IsKnown name
    → MeansAll args vs
    → length (split_lines rest) < length (split_lines (send_command name args ++ rest))
unfolding send_command
length-split_lines name rest known none_left =
    rw (split_line_of name rest (read_line-IsKnown name known).0) (omega arith)
length-split_lines name rest known (one_more {a} {as'} m ms) =
    let shorter = length-split_lines name rest known ms in
    rw
      (
        append_assoc (line_of (format_argument a)) (send_command name as') rest,
        split_line_of (format_argument a) (send_command name as' ++ rest)
            (format_argument-Carries m).one_line,
      )
      (omega arith)

abbrev Reads : ℕ → Parser → List Command → List Command → Type 0
Reads f p done cs = read_commands f p done ≡ some (inl (done ++ cs))

read_commands_step :
    (f : ℕ) (p q : Parser) (c : Command) (done cs : List Command)
    → parse_next p ≡ (command c, q)
    → Reads f q (done ++ c ∷ []) cs
    → Reads (suc f) p done (c ∷ cs)
unfolding read_commands
read_commands_step f p q c done cs e h =
    ap (read_round (read_commands f) done) e
    ∙ h
    ∙ ap (λ x. some (inl x)) (append_assoc done (c ∷ []) cs)

read_commands_end : (f : ℕ) (done : List Command) → Reads (suc f) (text_parser [] at_end) done []
unfolding read_commands parse_next parse_lines reader_of split_lines
read_commands_end f done = rw append-nil

read_commands-requests :
    (f : ℕ) {qs : List Request} {cs : List Command} (done : List Command)
    → length (split_lines (requests qs)) < f
    → MeansRequests qs cs
    → Reads f (text_parser (requests qs) at_end) done cs
unfolding reader_of
read_commands-requests zero done h m = absurd (omega arith)
read_commands-requests (suc f) done h all_read = read_commands_end f done
read_commands-requests (suc f) done h (next_request {q} {qs} {vs} {cs} known ms m) =
    let p = text_parser (requests (q ∷ qs)) at_end in
    let c : Command = record { name = q.name; args = vs } in
    read_commands_step f p (text_parser (requests qs) at_end) c done cs
      (parse_next-send_command p q.name q.arguments vs (requests qs) refl known ms)
      (read_commands-requests f (done ++ c ∷ [])
        (omega (arith, length-split_lines q.name (requests qs) known ms)) m)

-- Whatever known commands a client sends on a connection, with any arguments that have a meaning,
-- the server's parser accepts the header and reads back exactly these commands, in order, each
-- with its own arguments.
pub read_all_commands-requests :
    (qs : List Request) (cs : List Command)
    → MeansRequests qs cs
    → (p : Parser) × (new_parser (proto_ver ++ requests qs) at_end ≡ parser p)
      × (read_all_commands p ≡ some (inl cs))
unfolding read_all_commands reader_of
read_all_commands-requests qs cs m = (
  text_parser (requests qs) at_end,
  new_parser-proto_ver (requests qs) at_end,
  read_commands-requests (suc (length (split_lines (requests qs)))) [] (omega arith) m,
)
