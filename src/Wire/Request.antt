-- ===== src/Wire/Request.antt =====
-- One request: `sendCommand` of client/exe/client.go and `ParseCommand` of parser/parser.go.
use ade_ctld.Common.{List, [], ap, append-nil, append_assoc, ◌++◌, ◌∙◌, ◌∷◌, ◌≡◌}
use ade_ctld.Text.{Bytes}
use ade_ctld.Parser.{Parsed, Parser, Value, command, parse_lines, parse_next}
use ade_ctld.Parser.Input.{Ending, IsOneLine, Reader, split_lines, split_lines-append}
use ade_ctld.Parser.Laws.{IsKnown, read_line-IsKnown}
use ade_ctld.Client.Send.{Argument, format_argument, line_of, send_command}
use ade_ctld.Wire.Lines.{Carries, Means, format_argument-Carries}

-- The values that the receiver of a list of arguments gets, in order.
pub data MeansAll : List Argument → List Value → Type 0 where
  none_left : MeansAll [] []
  one_more :
      {a : Argument} {as' : List Argument} {v : Value} {vs : List Value}
      → Means a v
      → MeansAll as' vs
      → MeansAll (a ∷ as') (v ∷ vs)

parse_lines_push :
    {s : Bytes} {v : Value} (stack : List Value) (lines : List Bytes) (ending : Ending)
    → Carries s v
    → parse_lines stack (line_of s ∷ lines) ending ≡ parse_lines (stack ++ v ∷ []) lines ending
unfolding parse_lines
parse_lines_push stack lines ending c = rw (c.trimmed, parse_lines) (rw (c.pushes, parse_lines))

parse_lines_command :
    (name : Bytes) (stack : List Value) (lines : List Bytes) (ending : Ending)
    → IsKnown name
    → parse_lines stack (line_of name ∷ lines) ending
      ≡ (command (record { name = name; args = stack }), record { lines = lines; ending = ending })
unfolding parse_lines
parse_lines_command name stack lines ending known =
    let (_, trimmed, ends) = read_line-IsKnown name known in
    rw (trimmed, parse_lines) (rw (ends, parse_lines))

pub split_line_of :
    (s rest : Bytes) → IsOneLine s → split_lines (line_of s ++ rest) ≡ line_of s ∷ split_lines rest
split_line_of s rest h =
    ap split_lines (append_assoc s (b'\n' ∷ []) rest) ∙ split_lines-append s rest h

parse_lines-send_command :
    (name : Bytes) {args : List Argument} {vs : List Value} (stack : List Value) (rest : Bytes)
    (ending : Ending)
    → IsKnown name
    → MeansAll args vs
    → parse_lines stack (split_lines (send_command name args ++ rest)) ending ≡ (
      command (record { name = name; args = stack ++ vs }),
      record { lines = split_lines rest; ending = ending },
    )
unfolding send_command
parse_lines-send_command name stack rest ending known none_left =
    rw (append-nil stack, split_line_of name rest (read_line-IsKnown name known).0)
      (parse_lines_command name stack (split_lines rest) ending known)
parse_lines-send_command name stack rest ending known (one_more {a} {as'} {v} {vs} m ms) =
    let c = format_argument-Carries m in
    let others = send_command name as' ++ rest in
    ap (λ x. parse_lines stack x ending)
      (ap split_lines (append_assoc (line_of (format_argument a)) (send_command name as') rest)
        ∙ split_line_of (format_argument a) others c.one_line)
    ∙ parse_lines_push stack (split_lines others) ending c
    ∙ parse_lines-send_command name (stack ++ v ∷ []) rest ending known ms
    ∙ ap
        (λ x. (
          command (record { name = name; args = x }),
          record { lines = split_lines rest; ending = ending },
        ))
        (append_assoc stack (v ∷ []) vs)

-- A parser whose unread input starts with what `sendCommand` wrote for a known command, with any
-- arguments that have a meaning, returns that command with the meanings of the arguments, in their
-- order, and has then consumed exactly these bytes.
pub parse_next-send_command :
    (p : Parser) (name : Bytes) (args : List Argument) (vs : List Value) (rest : Bytes)
    → p.reader.lines ≡ split_lines (send_command name args ++ rest)
    → IsKnown name
    → MeansAll args vs
    → parse_next p ≡ (
      command (record { name = name; args = vs }),
      record p { reader = record p.reader { lines = split_lines rest } },
    )
unfolding parse_next
parse_next-send_command p name args vs rest unread known ms =
    ap (λ (r : Parsed × Reader). (r.0, record p { reader = r.1 }))
      (rw unread (parse_lines-send_command name [] rest p.reader.ending known ms))
