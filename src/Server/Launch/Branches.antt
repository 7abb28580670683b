-- ===== src/Server/Launch/Branches.antt =====
-- Everything that `run` (`handleRun` of server/server.go) can come to, by its arguments.
use ade_ctld.Common.{Bool, List, [], false, none, some, true, ℕ, ℤ, ◌∷◌, ◌≡◌, ◌≢◌, ◌⊎◌}
use ade_ctld.Text.{Bytes, codes}
use ade_ctld.Parser.{Value, type_bool, type_int, type_string}
use ade_ctld.Index.{get, Entry}
use ade_ctld.RunIndex.{Bolt}
use ade_ctld.RunIndex.Laws.{IsRunIndex}
use ade_ctld.Config
use ade_ctld.Config.{Config}
use ade_ctld.Server.State.{Host, Outcome, Server, done, process, start_error, write_error}
use ade_ctld.Server.Launch.{RunArgs, missing_id, run_id, run_response}
use ade_ctld.Server.Launch.Laws.{Counts, OnlyRunIndex}

abbrev no_id : Bytes
no_id = codes "run command requires an id parameter"

abbrev no_id_behind : Bytes
no_id_behind = codes "run command requires an id parameter after opt: terminal"

-- What arguments ask for. A number is an identifier; behind the text `opt: terminal`, it is one for a
-- terminal; nothing else names a program.
pub data Asks : List Value → RunArgs → Type 0 where
  asks_nothing : Asks [] (missing_id no_id)
  asks_id : {v : Value} {vs : List Value} → v.kind ≡ type_int → Asks (v ∷ vs) (run_id v.int false)
  asks_truth : {v : Value} {vs : List Value} → v.kind ≡ type_bool → Asks (v ∷ vs) (missing_id no_id)
  asks_text :
      {v : Value} {vs : List Value}
      → v.kind ≡ type_string
      → v.str ≢ codes "opt: terminal"
      → Asks (v ∷ vs) (missing_id no_id)
  asks_terminal :
      {v i : Value} {vs : List Value}
      → v.kind ≡ type_string
      → v.str ≡ codes "opt: terminal"
      → i.kind ≡ type_int
      → Asks (v ∷ i ∷ vs) (run_id i.int true)
  asks_terminal_alone :
      {v : Value}
      → v.kind ≡ type_string
      → v.str ≡ codes "opt: terminal"
      → Asks (v ∷ []) (missing_id no_id_behind)
  asks_terminal_without :
      {v i : Value} {vs : List Value}
      → v.kind ≡ type_string
      → v.str ≡ codes "opt: terminal"
      → i.kind ≢ type_int
      → Asks (v ∷ i ∷ vs) (missing_id no_id_behind)

-- What is executed: the Exec value as the name of a program, or as an argument of the terminal, if
-- the client or the entry asks for one.
pub data LaunchesAs (cfg : Config) (term : Bytes) (force : Bool) (entry : Entry)
    : List Bytes → Type 0 where
  directly :
      force ≡ false → entry.terminal ≡ false → LaunchesAs cfg term force entry (entry.exec ∷ [])
  in_terminal :
      (force ≡ true) ⊎ (entry.terminal ≡ true)
      → LaunchesAs cfg term force entry
          (Config.terminal cfg term ∷ codes "--hold" ∷ codes "-e" ∷ entry.exec ∷ [])

module _ (bolt : Bolt) (cfg : Config) (host : Host) (s : Server bolt.Db) (args : List Value) where
  -- What `run` comes to.
  pub data Runs : Outcome bolt.Db → Type 0 where
    unnamed :
        {why : Bytes}
        → Asks args (missing_id why)
        → Runs (done s (write_error (codes "run") (codes "missing id") why))
    unknown :
        {id : ℤ} {force : Bool}
        → Asks args (run_id id force)
        → get id s.index ≡ none
        → Runs (
            done s (
              write_error
                (codes "run")
                (codes "index not found")
                (codes "Can't run application, requested index not found.")))
    not_started :
        {id : ℤ} {force : Bool} {entry : Entry} {argv : List Bytes} {why : Bytes}
        → Asks args (run_id id force)
        → get id s.index ≡ some entry
        → LaunchesAs cfg host.term force entry argv
        → host.start argv ≡ start_error why
        → Runs (done s (write_error (codes "run") (codes "execution failed") why))
    started :
        {id : ℤ} {force : Bool} {entry : Entry} {argv : List Bytes} {pid : ℕ} {t : Server bolt.Db}
        → Asks args (run_id id force)
        → get id s.index ≡ some entry
        → LaunchesAs cfg host.term force entry argv
        → host.start argv ≡ process pid
        → OnlyRunIndex s t
        → IsRunIndex bolt t.run_index
        → Counts bolt cfg host s args entry t.run_index
        → Runs (done t (run_response id pid))
