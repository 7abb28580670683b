-- ===== src/CommandLine.antt =====
-- cmd/ade-exe-cli/main.go: the command line client, as what it sends.
pub mod Served
pub mod Exits
pub mod Interactive
use ade_ctld.Common.{List, [], if◌then◌else◌, ◌++◌, ◌||◌, ◌∷◌}
use ade_ctld.Text.{Bytes, codes, fields, join, str_eq, trim_space}
use ade_ctld.Client.Send.{Argument, other, send_command}

-- What `main` does with its arguments, where `NewClient` succeeds: it ends with the usage or an
-- error, starts the interactive mode, sends a command and prints the answer, or reads behind the
-- end of `os.Args`.
pub data Action : Type 0 where
  usage : Action
  interactive : Action
  send : Bytes → List Argument → Action
  unknown : Bytes → Action
  out_of_range : Action

-- A `[]string` is one argument for `SendCommand`; `%v` prints it in brackets.
abbrev pub strings : List Bytes → List Argument
strings values = other (codes "[" ++ (join values (codes " ") ++ codes "]")) ∷ []

-- `nil` is one argument, too.
abbrev pub nil_argument : List Argument
nil_argument = other (codes "<nil>") ∷ []

-- a command that wants an argument, which it sends as `[]string{os.Args[2]}`
send_first : Bytes → List Bytes → Action
send_first cmd [] = usage
send_first cmd (first ∷ args) = send cmd (strings (first ∷ []))

-- The switch of `main`, on the arguments behind the name of the command.
unfoldable pub main_command : Bytes → List Bytes → Action
unfolding send_first
main_command cmd args =
    if str_eq cmd (codes "interactive")
    then interactive
    else if str_eq cmd (codes "list")
    then send (codes "list") nil_argument
    else if str_eq cmd (codes "list-next")
    then (elim args [
      | [] ↦ usage
      | first ∷ rest ↦ send (codes "list-next") (strings (first ∷ rest))
    ])
    else if str_eq cmd (codes "filter-name")
    then send_first (codes "+filter-name") args
    else if str_eq cmd (codes "filter-cat")
    then send_first (codes "+filter-cat") args
    else if str_eq cmd (codes "reset-filters")
    then send (codes "0filters") nil_argument
    else if str_eq cmd (codes "run")
    then send_first (codes "run") args
    else if str_eq cmd (codes "reindex")
    then (elim args [
      | [] ↦ out_of_range
      | first ∷ rest ↦ send (codes "reindex") (strings (first ∷ []))
    ])
    else if str_eq cmd (codes "lang")
    then send_first (codes "lang") args
    else unknown cmd

-- `main`, on `os.Args[1:]`
unfoldable pub main : List Bytes → Action
unfolding main_command
main [] = usage
main (cmd ∷ args) = main_command cmd args

-- A line of `runInteractive`, which ends the loop, is passed over, or is sent.
pub data Prompt : Type 0 where
  leave : Prompt
  pass : Prompt
  submit : Bytes → List Argument → Prompt

prompt_words : List Bytes → Prompt
prompt_words [] = pass
prompt_words (cmd ∷ args) = submit cmd (strings args)

unfoldable pub prompt : Bytes → Prompt
unfolding prompt_words
prompt typed =
    let line = trim_space typed in
    if str_eq line (codes "exit") || str_eq line (codes "quit")
    then leave
    else if str_eq line []
    then pass
    else prompt_words (fields line)

-- `runInteractive`: what it sends for the lines of its input
unfoldable pub run_interactive : List Bytes → Bytes
run_interactive [] = []
run_interactive (typed ∷ inputs) = elim (prompt typed) [
  | leave ↦ []
  | pass ↦ run_interactive inputs
  | submit cmd args ↦ send_command cmd args ++ run_interactive inputs
]
