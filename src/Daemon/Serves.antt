-- ===== src/Daemon/Serves.antt =====
-- The server that the daemon (cmd/ade-exe-ctld/main.go) starts is one whose clients are answered.
use ade_ctld.Common.{
  All, Bool-cases, List, Option, ap, arith, inl, inr, length, none, refl, some, subst, sym, ℕ, ◌++◌,
  ◌+◌, ◌∙◌, ◌≡◌, ◌⊎◌,
}
use ade_ctld.Text.{Bytes, Unicode}
use ade_ctld.Parser.{Command}
use ade_ctld.Parser.Input.{Ending}
use ade_ctld.Index.{Index}
use ade_ctld.RunIndex.{Bolt}
use ade_ctld.RunIndex.Open.{CreatesBucket, OpensFine, new_run_index, new_run_index-IsRunIndex}
use ade_ctld.Config.{Config, search_path}
use ade_ctld.Config.Init.{init, run_panics}
use ade_ctld.Indexer.Count.{BringsFine, run_indexing-IsIndex}
use ade_ctld.Server.State.{Host, Server}
use ade_ctld.Server.Listing.Lines.{HasCleanNames}
use ade_ctld.Server.Dispatch.Step.{IsServer}
use ade_ctld.Server.Answers.Commands.{IsClean, IsCleanCommand}
use ade_ctld.Server.Answers.Clean.{run_indexing-HasCleanEntries}
use ade_ctld.Server.Answers.Session.{AreGood, ReadsAnswers}
use ade_ctld.Server.Answers.Interleaved.{
  AllAddClean, Executions, Executions-answers, Shared, accepted,
}
use ade_ctld.Daemon.{
  Machine, boot, configured, first_index, fresh_server, new_server, ready, served,
}

module _ (bolt : Bolt) (m : Machine bolt) where
  -- a server over a database that has been opened
  abbrev pub IsFreshServer : Index → Server bolt.Db → Type 0
  IsFreshServer idx s =
      (db : bolt.Db) × (new_run_index bolt m.disk ≡ inl db) × (s ≡ fresh_server bolt m idx db)

  new_server-fresh :
      (socket : Bytes) (idx : Index) (s : Server bolt.Db) (made heard : Option Bytes)
      (opened : bolt.Db ⊎ Bytes)
      → m.make_socket_dir socket ≡ made
      → m.listen socket ≡ heard
      → new_run_index bolt m.disk ≡ opened
      → new_server bolt m socket idx ≡ inl s
      → IsFreshServer idx s
  unfolding new_server
  new_server-fresh socket idx s (some why) heard opened em eh eo e =
      absurd (cc (rw (em, new_server) at e))
  new_server-fresh socket idx s none (some why) opened em eh eo e =
      absurd (cc (rw (em, eh, new_server) at e))
  new_server-fresh socket idx s none none (inr why) em eh eo e =
      absurd (cc (rw (em, eh, eo, new_server) at e))
  new_server-fresh socket idx s none none (inl db) em eh eo e =
      (db, eo, cc (rw (em, eh, eo, new_server) at e))

  module _ (cfg : Config) (s : Server bolt.Db) where
    served-ready :
        (c : Config) (r : Server bolt.Db ⊎ Bytes)
        → new_server bolt m c.static.unix_socket (first_index bolt m c) ≡ r
        → served bolt m c r ≡ ready cfg s
        → IsFreshServer (first_index bolt m cfg) s
    unfolding boot
    served-ready c (inr why) er e = absurd (cc e)
    served-ready c (inl t) er e =
        let same : c ≡ cfg = cc e in
        let server_of : t ≡ s = cc e in
        subst (λ x. IsFreshServer (first_index bolt m x) s) same
          (new_server-fresh c.static.unix_socket (first_index bolt m c) s _ _ _ refl refl refl
            (er ∙ ap inl server_of))

    configured-ready :
        (started : Config × Option Bytes)
        → configured bolt m started ≡ ready cfg s
        → IsFreshServer (first_index bolt m cfg) s
    unfolding boot
    configured-ready (c, some why) e = absurd (cc e)
    configured-ready (c, none) e = elim (Bool-cases (run_panics m.startup)) [
      | inl missing ↦ absurd (cc (rw missing at e))
      | inr watched ↦ served-ready c _ refl (rw watched at e)
    ]

    pub boot-fresh : boot bolt m ≡ ready cfg s → IsFreshServer (first_index bolt m cfg) s
    unfolding boot
    boot-fresh e = configured-ready (init m.startup) e

  -- A server that the startup makes is well-formed, if the database file that is opened is.
  pub boot-IsServer :
      (cfg : Config) (s : Server bolt.Db)
      → boot bolt m ≡ ready cfg s
      → CreatesBucket bolt m.disk
      → OpensFine bolt m.disk
      → IsServer bolt s
  boot-IsServer cfg s e law opens =
      let (db, opened, same) = boot-fresh cfg s e in
      subst (IsServer bolt) (sym same) (record {
        entries = run_indexing-IsIndex m.hidden (m.scan (search_path cfg));
        runs = new_run_index-IsRunIndex bolt m.disk law opens db opened;
      })

  -- It is clean of line feeds, if the names that the scanners find are.
  pub boot-IsClean :
      (cfg : Config) (s : Server bolt.Db)
      → boot bolt m ≡ ready cfg s
      → All (BringsFine HasCleanNames) (m.scan (search_path cfg))
      → IsClean s
  boot-IsClean cfg s e clean =
      let (db, opened, same) = boot-fresh cfg s e in
      subst IsClean (sym same) (record {
        clean_lang = omega arith;
        clean_entries = run_indexing-HasCleanEntries m.hidden (m.scan (search_path cfg)) clean;
      })

  -- When the daemon has come up, the clients of its server are answered: however the commands of any
  -- number of connections interleave, with one another and with what indexing runs do to the index
  -- between two commands, and whatever becomes of the settings, on each connection the client can read, one after the other, as many
  -- answers as it has sent commands, but for those that are still to be executed. The state stays
  -- well-formed. (A handler that panics ends the process.) The database file that is opened has a
  -- well-formed bucket or none, bbolt creates buckets as it says, the names that are found and
  -- the commands hold no line feeds, and the system around the server is fair.
  pub boot-answers :
      (u : Unicode) (cfg : Config) (s : Server bolt.Db) (sent : ℕ → List Command)
      (cfgs : ℕ → Config) (hosts : ℕ → Host) {w : Shared bolt.Db}
      (xs : Executions bolt u cfgs hosts (record { server = s; connections = accepted sent }) w)
      → boot bolt m ≡ ready cfg s
      → CreatesBucket bolt m.disk
      → OpensFine bolt m.disk
      → All (BringsFine HasCleanNames) (m.scan (search_path cfg))
      → AllAddClean bolt u xs
      → AreGood hosts
      → ((i : ℕ) → All IsCleanCommand (sent i))
      → IsServer bolt w.server
        × ((i : ℕ) (rest : Bytes) (ending : Ending)
            → (n : ℕ) × (n + length (w.connections i).todo ≡ length (sent i))
              × ReadsAnswers ending n ((w.connections i).out ++ rest) rest)
  boot-answers u cfg s sent cfgs hosts xs e law opens clean adds good cs =
      let (v, still_clean, answers) =
        Executions-answers bolt u sent cfgs hosts s xs adds good (boot-IsServer cfg s e law opens)
          (boot-IsClean cfg s e clean) cs in
      (v, answers)
