-- ===== src/Daemon/Lists.antt =====
-- What a client sees of a daemon (cmd/ade-exe-ctld/main.go) that has come up: what the scanners have
-- found on the system.
use ade_ctld.Common.{List, true}
use ade_ctld.Text.{Unicode}
use ade_ctld.RunIndex.{Bolt}
use ade_ctld.Config.{Config, search_path}
use ade_ctld.Desktop.Scan
use ade_ctld.Executable
use ade_ctld.Indexer.Count.{Merge}
use ade_ctld.Server.State.{Server}
use ade_ctld.Daemon.{Machine}

module _ (bolt : Bolt) (m : Machine bolt) (u : Unicode) where
  -- The events of the first indexing run are those of the two scanners on the visits of their walks,
  -- in some order.
  pub record Scans (cfg : Config) : Type 0 where
    pub walks : List (List Executable.Visit)
    pub desktop_walks : List (List Scan.FileVisit)
    pub merged :
        Merge true true
          (Executable.scan_paths walks)
          (Scan.scan_desktop_files u desktop_walks)
          (m.scan (search_path cfg))
