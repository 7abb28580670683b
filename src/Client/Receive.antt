-- ===== src/Client/Receive.antt =====
-- How the client reads an answer: `readResponse` and `ReadResponse`, whose loops differ in what
-- they do with the lines in front of the body.
use ade_ctld.Text.{bytes_eq}
use ade_ctld.Common.{
  Bool, List, Option, [], drop, false, if◌then◌else◌, insert, leb, length, ltb, none, not, some,
  suc, take, true, zero, ℕ, ◌&&◌, ◌++◌, ◌==◌, ◌∷◌,
}
use ade_ctld.Text.{Bytes, codes, split_n2, str_eq, trim_space}
use ade_ctld.Parser.Input.{Ending, at_end, broken}

-- `ReadString('\n')`: a line with its line feed, and what is behind it
unfoldable pub read_string : Bytes → Option (Bytes × Bytes)
read_string [] = none
read_string (c ∷ s) = elim (c == b'\n') [
  | true ↦ some (c ∷ [], s)
  | false ↦ elim (read_string s) [ none ↦ none | some (line, rest) ↦ some (c ∷ line, rest) ]
]

-- `isEndOfResponse`: the next byte is a line feed, which is then dropped.
unfoldable pub is_end_of_response : Bytes → Bool
is_end_of_response [] = false
is_end_of_response (c ∷ s) = c == b'\n'

-- `isBlankLineBeforeBodyHeader`: `Peek(6)` fails where fewer bytes are left.
unfoldable pub is_blank_line_before_body_header : Bytes → Bool
is_blank_line_before_body_header s = leb 6 (length s) && str_eq (take 5 s) (codes "body:")

-- What the loop comes to: the lines in front of the body and the body, with what has not been read;
-- or the error that `ReadString` reports, with what had been collected.
pub data Received (A : Type 0) : Type 0 where
  received : A → Bytes → Bytes → Received A
  read_error : A → Bytes → Bytes → Received A

module _ {A : Type 0} (blank header : Bytes → A → A) where
  -- The body of the loop; the first argument is the rest of the loop, the flag is `seenBodyHeader`.
  -- `header` takes a line in front of the body, and `blank` an empty one.
  unfoldable pub receive_line :
      (Bool → A → Bytes → Bytes → Option (Received A))
      → Bool
      → A
      → Bytes
      → Bytes
      → Bytes
      → Option (Received A)
  receive_line continue seen attrs body line rest =
      if str_eq (trim_space line) (codes "body:")
      then continue true attrs body rest
      else if str_eq line (codes "\n")
      then if is_end_of_response rest
        then some (received attrs body (drop 1 rest))
        else if is_blank_line_before_body_header rest
        then continue seen (blank line attrs) body rest
        else if not seen
        then continue seen (blank line attrs) body rest
        else continue seen attrs (body ++ line) rest
      else if not seen
      then continue seen (header line attrs) body rest
      else continue seen attrs (body ++ line) rest

  stopped : Ending → A → Bytes → Received A
  stopped at_end attrs body = received attrs body []
  stopped (broken why ending) attrs body = read_error attrs body why

  -- The loop on fuel: each round but the last consumes a byte.
  unfoldable pub receive : ℕ → Ending → Bool → A → Bytes → Bytes → Option (Received A)
  unfolding receive_line stopped
  receive zero ending seen attrs body input = none
  receive (suc f) ending seen attrs body input = elim (read_string input) [
    | none ↦ some (stopped ending attrs body)
    | some (line, rest) ↦ receive_line (receive f ending) seen attrs body line rest
  ]

abbrev pub Attrs : Type 0
Attrs = List (Bytes × Bytes)

-- a line `key: value` in front of the body
set_attr : Option (Bytes × Bytes) → Attrs → Attrs
set_attr none attrs = attrs
set_attr (some (key, value)) attrs = insert (trim_space key) (trim_space value) attrs

unfoldable pub add_attr : Bytes → Attrs → Attrs
unfolding set_attr
add_attr line attrs =
    if str_eq (trim_space line) [] then attrs else set_attr (split_n2 b':' (trim_space line)) attrs

abbrev pub no_blank : {A : Type 0} → Bytes → A → A
no_blank line attrs = attrs

-- What `readResponse` returns: attributes, body and what is still to be read, or an error.
pub data Response : Type 0 where
  response : Attrs → Bytes → Bytes → Response
  failed : Bytes → Response

unfoldable pub of_received : Option (Received Attrs) → Option Response
of_received none = none
of_received (some (received attrs body rest)) = some (response attrs body rest)
of_received (some (read_error attrs body why)) = some (failed (codes "read error: " ++ why))

-- the error of `io.ReadFull` on a header that is cut off
header_error : Bytes → Ending → Bytes
header_error [] at_end = codes "EOF"
header_error (c ∷ s) at_end = codes "unexpected EOF"
header_error _ (broken why ending) = why

-- `readResponse`; the first five bytes are not looked at.
unfoldable pub read_response : Bytes → Ending → Option Response
unfolding of_received header_error
read_response input ending =
    if ltb (length input) 5
    then some (failed (codes "failed to read response header: " ++ header_error input ending))
    else of_received
        (receive no_blank add_attr (suc (length input)) ending false [] [] (drop 5 input))

unfoldable pub add_line : Bytes → Bytes → Bytes
add_line line attrs = attrs ++ line

unfoldable pub printed : Option (Received Bytes) → Option Bytes
printed none = none
printed (some (received attrs body rest)) = some attrs
printed (some (read_error attrs body why)) = some attrs

-- `ReadResponse`: what it prints. `hasBody` is false to the end, so the body is left out.
unfoldable pub print_response : Bytes → Ending → Option Bytes
unfolding add_line printed
print_response input ending =
    if ltb (length input) 5
    then some []
    else printed (receive add_line add_line (suc (length input)) ending false [] [] (drop 5 input))
