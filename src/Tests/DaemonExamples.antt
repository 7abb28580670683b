-- ===== src/Tests/DaemonExamples.antt =====
-- The daemon on a system in which everything succeeds.
use ade_ctld.Common.{nat_eq}
use ade_ctld.Text.{bytes_eq}
use ade_ctld.Common.{
  List, [], ap, arith, false, inl, length, lookup, none, refl, some, subst, sym, ℕ, ◌++◌, ◌+◌, ◌∷◌,
  ◌≡◌,
}
use ade_ctld.Text.{Bytes, base_name, codes, cut_prefix, has_prefix, str_eq}
use ade_ctld.Parser.Input.{Ending}
use ade_ctld.RunIndex.Laws.{IsRunIndex}
use ade_ctld.RunIndex.Open.{CreatesBucket, Disk, OpensFine, new_run_index}
use ade_ctld.Config.Init.{Startup, init, init_socket, load_rc_file, run_panics, with_lines}
use ade_ctld.Indexer.{Event, entry_of_executable, executable, no_more_desktop, no_more_executables}
use ade_ctld.Server.State.{Server, success}
use ade_ctld.Server.Filters.{handle_reset_filters}
use ade_ctld.Server.Dispatch.{execute_command}
use ade_ctld.Index.{add, new_index}
use ade_ctld.Executable.{file, scan_paths}
use ade_ctld.Desktop.Scan
use ade_ctld.Indexer.Count.{both_closed, close_desktop, close_executables, next_executable}
use ade_ctld.Daemon.Lists.{Scans}
use ade_ctld.Server.Dispatch.Step.{IsServer}
use ade_ctld.Server.Answers.Session.{ReadsAnswers}
use ade_ctld.Server.Answers.Interleaved.{
  Executions, Shared, accepted, executes, index_changes, no_more, one_more_execution,
  set_connection,
}
use ade_ctld.Indexer.Overlap.{clears, fills}
use ade_ctld.Daemon.{Machine, boot, first_index, fresh_server, new_server, ready}
use ade_ctld.Daemon.Boots.{Boots, boot-Boots}
use ade_ctld.Daemon.Serves.{boot-answers}
use ade_ctld.Tests.Base.{ascii, machine-IsFair, memory, no_runs-IsRunIndex, settings}
use ade_ctld.Tests.SessionExamples.{
  machine-IsCleanHost, machines, one_reset, one_reset-IsCleanCommand,
}

abbrev startup : Startup
startup = record {
  account = record { uid = some (codes "1000"); home = some (codes "/home/u") };
  static = record settings.static { unix_socket = [] };
  env_error = none;
  rc_file = with_lines (codes "~/bin" ∷ []) none;
  new_watcher = none;
  watch_dir = none;
}

abbrev sh : Event
sh = executable (record { name = codes "sh"; path = codes "/bin/sh" })

abbrev disk : Disk memory
disk = record {
  user_cache = inl (codes "/home/u/.cache");
  join_path = λ dir name. dir ++ (codes "/" ++ name);
  mkdir_all = λ dir. none;
  open_db = λ name. inl [];
  create_bucket = λ db. inl db;
}

abbrev laptop : Machine memory
laptop = record {
  startup = startup;
  hidden = λ path. false;
  scan = λ paths. sh ∷ no_more_executables ∷ no_more_desktop ∷ [];
  make_socket_dir = λ socket. none;
  listen = λ socket. none;
  disk = disk;
}

boot-Boots_example : Boots memory laptop (boot memory laptop)
boot-Boots_example = boot-Boots memory laptop

disk-CreatesBucket : CreatesBucket memory disk
disk-CreatesBucket = record {
  creates = λ db db' e. refl;
  keeps_values = λ db db' path e. let same : db ≡ db' = cc e in ap (λ d. lookup path d) (sym same);
}

disk-OpensFine : OpensFine memory disk
disk-OpensFine = record {
  fine =
      λ name db e h. let same : [] ≡ db = cc e in subst (IsRunIndex memory) same no_runs-IsRunIndex;
}

abbrev booted_server : Server memory.Db
booted_server = fresh_server memory laptop (first_index memory laptop (init startup).0) []

laptop_boots : boot memory laptop ≡ ready (init startup).0 booted_server
unfolding boot new_server new_run_index init run_panics load_rc_file init_socket str_eq cut_prefix
laptop_boots = refl

-- the server behind a run that has found one program, and its connections
abbrev indexed : Shared memory.Db
indexed = record {
  server = record booted_server {
    index =
        (add (entry_of_executable (record { name = codes "ls"; path = codes "/bin/ls" }))
          new_index).0;
  };
  connections = accepted one_reset;
}

abbrev indexed_reset : Shared memory.Db
indexed_reset = record indexed {
  connections =
      set_connection 0 (record { todo = []; out = success (codes "0filters") }) indexed.connections;
}

abbrev indexes_then_resets :
    Executions memory ascii
      (λ n. (init startup).0)
      machines
      (record { server = booted_server; connections = accepted one_reset })
      indexed_reset
unfolding execute_command str_eq handle_reset_filters
indexes_then_resets = index_changes clears (
    index_changes
      (fills (entry_of_executable (record { name = codes "ls"; path = codes "/bin/ls" })))
      (one_more_execution (executes 0 refl refl) no_more))

boot-answers_example :
    IsServer memory indexed_reset.server
    × ((i : ℕ) (rest : Bytes) (ending : Ending)
        → (n : ℕ) × (n + length (indexed_reset.connections i).todo ≡ length (one_reset i))
          × ReadsAnswers ending n ((indexed_reset.connections i).out ++ rest) rest)
unfolding execute_command str_eq handle_reset_filters
boot-answers_example =
    boot-answers memory laptop ascii (init startup).0 booted_server one_reset
      (λ n. (init startup).0) machines indexes_then_resets laptop_boots disk-CreatesBucket
      disk-OpensFine (record { clean_name = omega arith; clean_names = tt }, (tt, (tt, tt)))
      (tt, (record { clean_name = omega arith; clean_names = tt }, tt))
      (record { all_fair = λ n. machine-IsFair; all_clean = λ n. machine-IsCleanHost })
      one_reset-IsCleanCommand

abbrev laptop_scans : Scans memory laptop ascii (init startup).0
unfolding scan_paths Scan.scan_desktop_files base_name has_prefix
laptop_scans = record {
  walks = (file (codes "/bin/sh") 493 ∷ []) ∷ [];
  desktop_walks = [];
  merged = next_executable (close_executables (close_desktop both_closed));
}
