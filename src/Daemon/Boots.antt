-- ===== src/Daemon/Boots.antt =====
-- What the startup of the daemon (cmd/ade-exe-ctld/main.go) comes to.
use ade_ctld.Common.{Bool-cases, Option, false, inl, inr, none, refl, some, ◌++◌, ◌≡◌, ◌⊎◌}
use ade_ctld.Text.{Bytes, codes}
use ade_ctld.RunIndex.{Bolt}
use ade_ctld.RunIndex.Open.{new_run_index}
use ade_ctld.Config.{Config}
use ade_ctld.Config.Init.{init, init_socket, run_panics}
use ade_ctld.Config.Startup.{run_panics_iff}
use ade_ctld.Server.State.{Server, no_filters}
use ade_ctld.Daemon.{
  Booted, Machine, boot, doomed, error_line, failed, first_index, fresh_server, new_server, ready,
}
use ade_ctld.Daemon.{served}

module _ (bolt : Bolt) (m : Machine bolt) where
  abbrev pub config_of : Config
  config_of = (init m.startup).0

  -- the path of the socket
  abbrev pub socket_path : Bytes
  socket_path = config_of.static.unix_socket

  -- What `NewServer` comes to in the daemon: it fails at its directory, at the listener, or at the run
  -- index; or the server starts with what the first indexing run has found, without filters, and in
  -- English.
  pub data Starts : Booted bolt.Db → Type 0 where
    no_directory :
        {why : Bytes}
        → m.make_socket_dir socket_path ≡ some why
        → Starts (failed (error_line (codes "Failed to create server: ") why))
    not_listening :
        {why : Bytes}
        → m.make_socket_dir socket_path ≡ none
        → m.listen socket_path ≡ some why
        → Starts (failed (error_line (codes "Failed to create server: ") why))
    no_run_index :
        {why : Bytes}
        → m.make_socket_dir socket_path ≡ none
        → m.listen socket_path ≡ none
        → new_run_index bolt m.disk ≡ inr why
        → Starts (
            failed (
              error_line
                (codes "Failed to create server: ")
                (codes "failed to initialize run index: " ++ why)))
    starts :
        {db : bolt.Db} {s : Server bolt.Db}
        → m.make_socket_dir socket_path ≡ none
        → m.listen socket_path ≡ none
        → new_run_index bolt m.disk ≡ inl db
        → s.index ≡ first_index bolt m config_of
        → s.run_index ≡ db
        → s.filters ≡ no_filters
        → s.lang ≡ codes "en"
        → Starts (ready config_of s)

  -- What `main` comes to before it starts the server.
  pub data Boots : Booted bolt.Db → Type 0 where
    no_config :
        {why : Bytes}
        → (init m.startup).1 ≡ some why
        → Boots (failed (error_line (codes "Failed to initialize config: ") why))
    no_watcher :
        {b : Booted bolt.Db}
        → (init m.startup).1 ≡ none
        → init_socket m.startup.account m.startup.static.unix_socket ≡ none
        → Starts b
        → Boots (doomed b)
    watched :
        {b : Booted bolt.Db} {socket : Bytes}
        → (init m.startup).1 ≡ none
        → init_socket m.startup.account m.startup.static.unix_socket ≡ some socket
        → Starts b
        → Boots b

  abbrev rest : Booted bolt.Db
  rest = served bolt m config_of (new_server bolt m socket_path (first_index bolt m config_of))

  opening-Starts :
      (r : bolt.Db ⊎ Bytes)
      → m.make_socket_dir socket_path ≡ none
      → m.listen socket_path ≡ none
      → new_run_index bolt m.disk ≡ r
      → Starts rest
  unfolding new_server boot
  opening-Starts (inl db) made heard opened =
      rw (made, heard, opened, new_server)
        (starts {s = fresh_server bolt m (first_index bolt m config_of) db} made heard opened refl
          refl refl refl)
  opening-Starts (inr why) made heard opened =
      rw (made, heard, opened, new_server) (no_run_index made heard opened)

  listening-Starts :
      (r : Option Bytes)
      → m.make_socket_dir socket_path ≡ none
      → m.listen socket_path ≡ r
      → Starts rest
  unfolding new_server boot
  listening-Starts none made heard = opening-Starts (new_run_index bolt m.disk) made heard refl
  listening-Starts (some why) made heard = rw (made, heard, new_server) (not_listening made heard)

  making-Starts : (r : Option Bytes) → m.make_socket_dir socket_path ≡ r → Starts rest
  unfolding new_server boot
  making-Starts none made = listening-Starts (m.listen socket_path) made refl
  making-Starts (some why) made = rw (made, new_server) (no_directory made)

  rest-Starts : Starts rest
  rest-Starts = making-Starts (m.make_socket_dir socket_path) refl

  found-Boots :
      (socket : Option Bytes)
      → (init m.startup).1 ≡ none
      → run_panics m.startup ≡ false
      → init_socket m.startup.account m.startup.static.unix_socket ≡ socket
      → Boots rest
  found-Boots (some socket) e quiet found = watched e found rest-Starts
  found-Boots none e quiet missing = absurd (cc (quiet, (run_panics_iff m.startup e).1 missing))

  configured-Boots : (r : Option Bytes) → (init m.startup).1 ≡ r → Boots (boot bolt m)
  unfolding boot
  configured-Boots (some why) e = rw e (no_config e)
  configured-Boots none e = elim (Bool-cases (run_panics m.startup)) [
    | inl panics ↦ rw (e, panics) (no_watcher e ((run_panics_iff m.startup e).0 panics) rest-Starts)
    | inr quiet ↦ rw (e, quiet) (found-Boots _ e quiet refl)
  ]

  -- The startup of the daemon ends with exit code 1 and a message that names the reason, where `Init`
  -- or `NewServer` fails: the configuration, or the directory of the socket, the listener, the
  -- database of the runs, the first of them that fails. Else the server starts with the entries of
  -- the first indexing run, over the database, without filters and in English. Exactly where `Init`
  -- has not found a socket, but returned no error, a goroutine panics meanwhile. No signal ends the
  -- process before.
  pub boot-Boots : Boots (boot bolt m)
  boot-Boots = configured-Boots (init m.startup).1 refl
