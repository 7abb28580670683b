-- ===== src/Server/Launch.antt =====
-- `run`: starting the program of an entry.
pub mod Laws
pub mod Branches
pub mod Promotes
use ade_ctld.Common.{
  Bool, List, Option, [], false, if◌then◌else◌, none, some, true, ℕ, ℤ, ◌++◌, ◌||◌, ◌∷◌,
}
use ade_ctld.Text.{Bytes, codes, str_eq}
use ade_ctld.Strconv.{format_int, format_uint}
use ade_ctld.Parser.{Value, type_bool, type_int, type_string}
use ade_ctld.Index.{get, Entry}
use ade_ctld.RunIndex.{Bolt, increment, Updated, updated, failed, panicked}
use ade_ctld.Config
use ade_ctld.Config.{Config}
use ade_ctld.Server.State.{
  Host, Outcome, Server, Started, done, panic, process, start_error, write_error, write_response,
}

-- what the arguments of `run` ask for: an identifier, and whether a terminal is forced
pub data RunArgs : Type 0 where
  run_id : ℤ → Bool → RunArgs
  missing_id : Bytes → RunArgs

id_behind_option : List Value → RunArgs
id_behind_option [] = missing_id (codes "run command requires an id parameter after opt: terminal")
id_behind_option (second ∷ args) = elim second.kind [
  | type_int ↦ run_id second.int true
  | _ ↦ missing_id (codes "run command requires an id parameter after opt: terminal")
]

-- the tests at the start of `handleRun`
unfoldable pub run_args : List Value → RunArgs
unfolding id_behind_option
run_args [] = missing_id (codes "run command requires an id parameter")
run_args (first ∷ args) = elim first.kind [
  | type_string ↦
      if str_eq first.str (codes "opt: terminal")
      then id_behind_option args
      else missing_id (codes "run command requires an id parameter")
  | type_int ↦ run_id first.int false
  | type_bool ↦ missing_id (codes "run command requires an id parameter")
]

-- The command line: the whole Exec value is the name of the program, or one argument of the
-- terminal.
unfoldable pub command_line : Config → Bytes → Bool → Entry → List Bytes
command_line cfg term force entry =
    if force || entry.terminal
    then Config.terminal cfg term ∷ codes "--hold" ∷ codes "-e" ∷ entry.exec ∷ []
    else entry.exec ∷ []

unfoldable pub run_response : ℤ → ℕ → Bytes
run_response id pid = write_response (
    codes "cmd: run\nidx: "
    ++ (format_int id ++ (codes "\nstatus: 0\npid: " ++ (format_uint pid ++ codes "\n\n\n"))))

run_error : Bytes → Bytes → Bytes
run_error err_type desc = write_error (codes "run") err_type desc

module _ (bolt : Bolt) (cfg : Config) where
  -- A failed update of the counts is logged only.
  count_run : Server bolt.Db → Bytes → Updated bolt.Db → Outcome bolt.Db
  count_run s response (updated db) = done (record s { run_index = db }) response
  count_run s response (failed why) = done s response
  count_run s response panicked = panic

  after_start : Server bolt.Db → ℤ → Entry → Started → Outcome bolt.Db
  unfolding count_run run_error
  after_start s id entry (start_error why) = done s (run_error (codes "execution failed") why)
  after_start s id entry (process pid) =
      count_run s (run_response id pid) (increment bolt s.run_index entry.path)

  run_entry : Host → Server bolt.Db → ℤ → Bool → Option Entry → Outcome bolt.Db
  unfolding after_start run_error
  run_entry host s id force none = done s (
      run_error (codes "index not found")
        (codes "Can't run application, requested index not found."))
  run_entry host s id force (some entry) =
      after_start s id entry (host.start (command_line cfg host.term force entry))

  run_with : Host → Server bolt.Db → RunArgs → Outcome bolt.Db
  unfolding run_entry run_error
  run_with host s (missing_id desc) = done s (run_error (codes "missing id") desc)
  run_with host s (run_id id force) = run_entry host s id force (get id s.index)

  -- `handleRun`
  unfoldable pub handle_run : Host → Server bolt.Db → List Value → Outcome bolt.Db
  unfolding run_with
  handle_run host s args = run_with host s (run_args args)
