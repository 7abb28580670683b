-- ===== src/Server/State.antt =====
-- The server's state, what the system around it does, and how answers are written.
use ade_ctld.Common.{Bool, List, Option, [], ℕ, ◌++◌}
use ade_ctld.Text.{Bytes, codes}
use ade_ctld.Index.{Entry, Index}
use ade_ctld.Indexer.{Event}

pub record FilterExpr : Type 0 where
  pub values : List Bytes
  pub op : Bytes

pub record Filters : Type 0 where
  pub name_filters : List FilterExpr
  pub cat_filters : List FilterExpr
  pub path_filters : List FilterExpr

abbrev pub no_filters : Filters
no_filters = record { name_filters = []; cat_filters = []; path_filters = [] }

-- The listener and the locks are not modelled: a handler runs as one step.
pub record Server (Db : Type 0) : Type 0 where
  pub index : Index
  pub run_index : Db
  pub filters : Filters
  pub lang : Bytes

-- What `exec.Command(argv...).Start()` comes to: a process, or an error.
pub data Started : Type 0 where
  process : ℕ → Started
  start_error : Bytes → Started

-- What the system around the server does during one command: the order in which the runtime goes
-- through a map, the result of starting a program, the environment, and what a reindexing finds.
pub record Host : Type 0 where
  pub order : List Entry → List Entry
  pub start : List Bytes → Started
  pub term : Bytes
  pub home : Option Bytes
  pub absolute : Bytes → Option Bytes
  pub hidden : Bytes → Bool
  pub scan : List Bytes → List Event

-- A handler changes the state and writes to the connection, or panics, which ends the process.
pub data Outcome (Db : Type 0) : Type 0 where
  done : Server Db → Bytes → Outcome Db
  panic : Outcome Db

-- `writeResponse`, on a connection that takes what is written
abbrev pub write_response : Bytes → Bytes
write_response response = codes "TXT01" ++ response

-- `writeError`
unfoldable pub write_error : Bytes → Bytes → Bytes → Bytes
write_error cmd err_type desc = write_response (
    codes "error-cmd: "
    ++ (cmd ++ (codes "\nerror: " ++ (err_type ++ (codes "\ndesc: " ++ (desc ++ codes "\n\n\n"))))))

-- the answer `cmd: <name>`, `status: 0` of the handlers that only change the state
abbrev pub success : Bytes → Bytes
success name = write_response (codes "cmd: " ++ (name ++ codes "\nstatus: 0\n\n\n"))
