-- ===== src/Client/Calls.antt =====
-- The calls that wait for an answer: `ResetFilters`, `SetFilterName`, `List`, `Run` and
-- `RunInTerminal`. Each is what it sends, and what it makes of the bytes that it then reads.
use ade_ctld.Text.{bytes_eq}
use ade_ctld.Common.{List, Option, [], if◌then◌else◌, lookup, none, some, ℤ, ◌++◌, ◌∷◌}
use ade_ctld.Text.{Bytes, codes, fields, join, split, str_eq, trim_space}
use ade_ctld.Strconv.{parse_int}
use ade_ctld.Parser.Input.{Ending}
use ade_ctld.Client.Send.{send_command, signed, text}
use ade_ctld.Client.Receive.{Response, failed, read_response, response}

pub record Application : Type 0 where
  pub id : ℤ
  pub name : Bytes

-- what a call returns: a value, with what has not been read, or an error
pub data Called (A : Type 0) : Type 0 where
  ok : A → Bytes → Called A
  error : Bytes → Called A

-- the steps behind `readResponse`; `use_body` makes the value
unfoldable pub checked : {A : Type 0} → (Bytes → A) → Option Bytes → Bytes → Bytes → Called A
checked use_body (some msg) body rest = error (codes "server error: " ++ msg)
checked use_body none body rest = ok (use_body body) rest

unfoldable pub called : {A : Type 0} → (Bytes → A) → Option Response → Option (Called A)
unfolding checked
called use_body none = none
called use_body (some (failed why)) = some (error (codes "failed to read response: " ++ why))
called use_body (some (response attrs body rest)) =
    some (checked use_body (lookup (codes "error") attrs) body rest)

unfoldable pub await : {A : Type 0} → (Bytes → A) → Bytes → Ending → Option (Called A)
unfolding called
await use_body input ending = called use_body (read_response input ending)

-- The words of a line of the body: an identifier and a name of at least one word.
unfoldable pub app_of_words : List Bytes → Option Application
app_of_words [] = none
app_of_words (first ∷ []) = none
app_of_words (first ∷ word ∷ words) = elim (parse_int first) [
  | none ↦ none
  | some id ↦ some (record { id = id; name = join (word ∷ words) (codes " ") })
]

-- The body of the loop of `List`.
unfoldable pub app_of_line : Bytes → Option Application
unfolding app_of_words
app_of_line raw =
    let line = trim_space raw in if str_eq line [] then none else app_of_words (fields line)

unfoldable pub apps_of_lines : List Bytes → List Application
apps_of_lines [] = []
apps_of_lines (line ∷ lines) = elim (app_of_line line) [
  | none ↦ apps_of_lines lines
  | some app ↦ app ∷ apps_of_lines lines
]

-- `List` on a body
unfoldable pub apps_of_body : Bytes → List Application
apps_of_body body = apps_of_lines (split b'\n' (trim_space body))

abbrev pub list_request : Bytes
list_request = send_command (codes "list") []

-- `List`
unfoldable pub client_list : Bytes → Ending → Option (Called (List Application))
unfolding await
client_list = await apps_of_body

abbrev pub run_request : ℤ → Bytes
run_request id = send_command (codes "run") (signed id ∷ [])

abbrev pub run_in_terminal_request : ℤ → Bytes
run_in_terminal_request id =
    send_command (codes "run") (text (codes "opt: terminal") ∷ signed id ∷ [])

abbrev pub reset_filters_request : Bytes
reset_filters_request = send_command (codes "0filters") []

abbrev pub set_filter_name_request : Bytes → Bytes
set_filter_name_request query =
    if str_eq query []
    then reset_filters_request
    else send_command (codes "filter-name") (text query ∷ [])

-- `ResetFilters`, `SetFilterName`, `Run` and `RunInTerminal` treat the answer alike.
unfoldable pub client_call : Bytes → Ending → Option (Called (Unit {0}))
unfolding await
client_call = await (λ body. tt)
