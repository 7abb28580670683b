-- ===== src/Daemon.antt =====
-- cmd/ade-exe-ctld/main.go, with `NewServer` of server/server.go: how the daemon comes up from its
-- parts, as long as no signal ends it before. Where the configuration has no watcher, the goroutine
-- that `config.Run` starts panics at some moment, while `main` goes on until then.
pub mod Boots
pub mod Serves
pub mod Lists
use ade_ctld.Common.{Bool, List, Option, if◌then◌else◌, inl, inr, none, some, ◌++◌, ◌⊎◌}
use ade_ctld.Text.{Bytes, codes}
use ade_ctld.Index.{Index}
use ade_ctld.RunIndex.{Bolt}
use ade_ctld.RunIndex.Open.{Disk, new_run_index}
use ade_ctld.Config.{Config, search_path}
use ade_ctld.Config.Init.{Startup, init, run_panics}
use ade_ctld.Indexer.{Event, run_indexing}
use ade_ctld.Server.State.{Server, no_filters}

-- What the system does while the daemon starts. The functions take the path of the socket: the
-- errors of making its directory and of listening on it, where a socket that is left has been
-- removed, whatever `os.Remove` returns.
pub record Machine (bolt : Bolt) : Type 0 where
  pub startup : Startup
  pub hidden : Bytes → Bool
  pub scan : List Bytes → List Event
  pub make_socket_dir : Bytes → Option Bytes
  pub listen : Bytes → Option Bytes
  pub disk : Disk bolt

-- What the startup comes to: an error message and exit code 1; a server; or one of these, and a
-- goroutine that panics, which ends the process at any moment, before or behind it.
pub data Booted (Db : Type 0) : Type 0 where
  failed : Bytes → Booted Db
  ready : Config → Server Db → Booted Db
  doomed : Booted Db → Booted Db

abbrev pub error_line : Bytes → Bytes → Bytes
error_line what why = what ++ (why ++ codes "\n")

module _ (bolt : Bolt) (m : Machine bolt) where
  -- a server without filters, in English
  abbrev pub fresh_server : Index → bolt.Db → Server bolt.Db
  fresh_server idx db = record {
    index = idx;
    run_index = db;
    filters = no_filters;
    lang = codes "en";
  }

  with_run_index : Index → bolt.Db ⊎ Bytes → Server bolt.Db ⊎ Bytes
  with_run_index idx (inl db) = inl (fresh_server idx db)
  with_run_index idx (inr why) = inr (codes "failed to initialize run index: " ++ why)

  -- `NewServer`, at the path of the socket
  unfoldable pub new_server : Bytes → Index → Server bolt.Db ⊎ Bytes
  unfolding with_run_index
  new_server socket idx = elim (m.make_socket_dir socket) [
    | some why ↦ inr why
    | none ↦ elim (m.listen socket) [
      | some why ↦ inr why
      | none ↦ with_run_index idx (new_run_index bolt m.disk)
    ]
  ]

  -- the index that `Start` of the indexer has filled when it returns, which it does without an error
  abbrev pub first_index : Config → Index
  first_index cfg = run_indexing m.hidden (m.scan (search_path cfg))

  pub served : Config → Server bolt.Db ⊎ Bytes → Booted bolt.Db
  served cfg (inl s) = ready cfg s
  served cfg (inr why) = failed (error_line (codes "Failed to create server: ") why)

  pub configured : Config × Option Bytes → Booted bolt.Db
  unfolding served
  configured (cfg, some why) = failed (error_line (codes "Failed to initialize config: ") why)
  configured (cfg, none) =
      let rest = served cfg (new_server cfg.static.unix_socket (first_index cfg)) in
      if run_panics m.startup then doomed rest else rest

  -- `main`, up to the start of the server
  unfoldable pub boot : Booted bolt.Db
  unfolding configured
  boot = configured (init m.startup)
