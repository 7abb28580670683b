-- ===== src/Client/Send.antt =====
-- `FormatArgument` and `sendCommand`: the bytes of a request, where every write succeeds.
use ade_ctld.Common.{Bool, List, [], any, if◌then◌else◌, ℕ, ℤ, ◌++◌, ◌||◌, ◌∷◌}
use ade_ctld.Text.{Bytes, codes, has_prefix, str_eq}
use ade_ctld.Strconv.{format_int, format_uint}

-- The dynamic type of an argument, as the type switch tells it: the five signed types are all
-- widened to `int64`, the five unsigned ones to `uint64`. Of any other value `%v` prints the text.
pub data Argument : Type 0 where
  signed : ℤ → Argument
  unsigned : ℕ → Argument
  boolean : Bool → Argument
  text : Bytes → Argument
  other : Bytes → Argument

abbrev pub keywords : List Bytes
keywords = codes "or" ∷ codes "and" ∷ codes "not" ∷ []

-- the case `string` of the type switch
format_text : Bytes → Bytes
format_text v =
    if has_prefix v (codes "\"")
    then v
    else if str_eq v (codes "t") || str_eq v (codes "f")
    then v
    else if any (str_eq v) keywords
    then v
    else b'"' ∷ v

unfoldable pub format_argument : Argument → Bytes
unfolding format_text
format_argument (signed i) = format_int i
format_argument (unsigned n) = format_uint n
format_argument (boolean b) = if b then codes "t" else codes "f"
format_argument (text v) = format_text v
format_argument (other printed) = b'"' ∷ (printed ++ codes "\"")

abbrev pub line_of : Bytes → Bytes
line_of s = s ++ b'\n' ∷ []

-- `sendCommand`: a line for each argument, then the line of the command
unfoldable pub send_command : Bytes → List Argument → Bytes
send_command name [] = line_of name
send_command name (arg ∷ args) = line_of (format_argument arg) ++ send_command name args

-- what `NewClient` writes first
abbrev pub proto_ver : Bytes
proto_ver = codes "TXT01"
