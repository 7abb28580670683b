-- ===== src/Parser.antt =====
-- parser/parser.go: the text form of the command language. Arguments are pushed on a stack, a line
-- each, until a line names a command.
pub mod Input
pub mod Laws
pub mod Progress
use mathlib.Core.Option
use ade_ctld.Common.{
  Bool, List, Option, [], drop, false, if◌then◌else◌, inl, inr, length, ltb, map, none, not, pos,
  some, suc, take, true, zero, ℕ, ℤ, ◌++◌, ◌∷◌, ◌⊎◌,
}
use ade_ctld.Text.{Bytes, codes, cut_prefix, has_prefix, str_eq, trim_space}
use ade_ctld.Strconv.{parse_int}
use ade_ctld.Parser.Input.{Ending, Reader, at_end, broken, reader_of}

pub data ValueType : Type 0 where
  type_string type_int type_bool : ValueType

-- The struct of the source: each kind of value uses its own field, and the others are zero, but for
-- the operators `or`, `and` and `not`, which keep their spelling in `str`.
pub record Value : Type 0 where
  pub kind : ValueType
  pub str : Bytes
  pub int : ℤ
  pub bool : Bool

abbrev pub string_value : Bytes → Value
string_value s = record { kind = type_string; str = s; int = pos 0; bool = false }

abbrev pub int_value : ℤ → Value
int_value i = record { kind = type_int; str = []; int = i; bool = false }

abbrev pub bool_value : Bool → Bytes → Value
bool_value b s = record { kind = type_bool; str = s; int = pos 0; bool = b }

pub record Command : Type 0 where
  pub name : Bytes
  pub args : List Value

pub record Parser : Type 0 where
  pub reader : Reader
  pub header : Bytes
  pub version : Bytes

-- What a call of `ParseCommand` returns: a command, `io.EOF`, or another error.
pub data Parsed : Type 0 where
  command : Command → Parsed
  eof : Parsed
  parse_error : Bytes → Parsed

pub data NewParser : Type 0 where
  parser : Parser → NewParser
  bad_header : Bytes → NewParser

-- `NewParser`: the first five bytes are the format and the version.
unfoldable pub new_parser : Bytes → Ending → NewParser
new_parser input ending =
    if ltb (length input) 5
    then bad_header (codes "invalid header")
    else if not (str_eq (take 3 input) (codes "TXT"))
    then bad_header (codes "unsupported format: " ++ take 3 input)
    else parser (record {
      reader = reader_of (drop 5 input) ending;
      header = take 3 input;
      version = take 2 (drop 3 input);
    })

abbrev pub commands : List Bytes
commands =
    codes "filter-name"
    ∷ codes "+filter-name"
    ∷ codes "+filter-cat"
    ∷ codes "+filter-path"
    ∷ codes "0filters"
    ∷ codes "list"
    ∷ codes "run"
    ∷ codes "lang"
    ∷ codes "saveconf"
    ∷ codes "list-next"
    ∷ codes "reindex"
    ∷ []

find_command : Bytes → List Bytes → Bytes
find_command line [] = []
find_command line (cmd ∷ cmds) = if str_eq line cmd then cmd else find_command line cmds

-- `parseCommand`: the command that the line names, or the empty text
unfoldable pub parse_command : Bytes → Bytes
unfolding find_command
parse_command line = find_command (trim_space line) commands

-- the rest of `parseValue` behind the string case
parse_literal : Bytes → Option Value
parse_literal line =
    if str_eq line (codes "t")
    then some (bool_value true [])
    else if str_eq line (codes "f")
    then some (bool_value false [])
    else if str_eq line (codes "or")
    then some (bool_value true (codes "or"))
    else if str_eq line (codes "and")
    then some (bool_value false (codes "and"))
    else if str_eq line (codes "not")
    then some (bool_value false (codes "not"))
    else Option.map int_value (parse_int line)

value_of_line : Bytes → Option Value
unfolding parse_literal
value_of_line line = elim (cut_prefix line (codes "\"")) [
  | some after ↦ some (string_value after)
  | none ↦ parse_literal line
]

-- `parseValue`
unfoldable pub parse_value : Bytes → Option Value
unfolding value_of_line
parse_value line = value_of_line (trim_space line)

abbrev parse_failure : Bytes → Bytes
parse_failure line = codes "parse error: cannot parse value: " ++ line

-- What one line does to the stack.
pub data Line : Type 0 where
  skip : Line
  found : Bytes → Line
  push : Value → Line
  refuse : Bytes → Line

named : Bytes → Bytes → Line
named line [] = elim (parse_value line) [ some v ↦ push v | none ↦ refuse (parse_failure line) ]
named line cmd = found cmd

-- The body of the loop of `ParseCommand`, on a trimmed line.
unfoldable pub read_line : Bytes → Line
unfolding named
read_line line =
    if str_eq line []
    then skip
    else if has_prefix line (codes "#")
    then skip
    else named line (parse_command line)

-- The loop of `ParseCommand`, over the complete lines that are still to be read. A line that the
-- input ends in is not complete: `ReadString` reports the end together with it. An error is reported once; the next call reads what is behind it.
unfoldable pub parse_lines : List Value → List Bytes → Ending → Parsed × Reader
parse_lines stack [] at_end = (eof, record { lines = []; ending = at_end })
parse_lines stack [] (broken why ending) = (parse_error why, record { lines = []; ending = ending })
parse_lines stack (line ∷ lines) ending = elim (read_line (trim_space line)) [
  | skip ↦ parse_lines stack lines ending
  | found cmd ↦
      (command (record { name = cmd; args = stack }), record { lines = lines; ending = ending })
  | push v ↦ parse_lines (stack ++ v ∷ []) lines ending
  | refuse why ↦ (parse_error why, record { lines = lines; ending = ending })
]

-- `ParseCommand`: the parser keeps what it has not read. What is left of an incomplete line when
-- the end is met has been consumed.
unfoldable pub parse_next : Parser → Parsed × Parser
unfolding parse_lines
parse_next p =
    let (r, reader) = parse_lines [] p.reader.lines p.reader.ending in
    (r, record p { reader = reader })

-- `ParseBoolOp`, a placeholder of the source
unfoldable pub parse_bool_op : Value → Bytes
parse_bool_op v = elim v.kind [ type_bool ↦ codes "or" | _ ↦ [] ]

-- A round of the loop of `ReadAllCommands`; the first argument is the rest of the loop.
unfoldable pub read_round :
    (Parser → List Command → Option (List Command ⊎ Bytes))
    → List Command
    → Parsed × Parser
    → Option (List Command ⊎ Bytes)
read_round continue done (command c, q) = continue q (done ++ c ∷ [])
read_round continue done (eof, q) = some (inl done)
read_round continue done (parse_error why, q) = some (inr why)

-- The loop on fuel: a call of `ParseCommand` that returns a command consumes a line.
unfoldable pub read_commands : ℕ → Parser → List Command → Option (List Command ⊎ Bytes)
unfolding read_round
read_commands zero p done = none
read_commands (suc f) p done = read_round (read_commands f) done (parse_next p)

unfoldable pub read_all_commands : Parser → Option (List Command ⊎ Bytes)
unfolding read_commands
read_all_commands p = read_commands (suc (length p.reader.lines)) p []
