-- ===== src/Tests/DataExamples.antt =====
-- The index, the counts, an indexing run, and the files that it reads.
use mathlib.Core.List.{Permᴰ}
use ade_ctld.Text.{bytes_eq}
use ade_ctld.Common.{List, [], insert, length, lookup, none, refl, some, true, ◌↔◌, ◌∷◌, ◌≡◌, ◌⊎◌}
use ade_ctld.Text.{
  codes, cut_prefix, has_prefix, has_suffix, scan_lines, split, split_n2, str_eq, to_lower,
  trim_cut, trim_space,
}
use ade_ctld.RunIndex.{increment, put_uint64, store_count, stored_count, updated}
use ade_ctld.Index.{count}
use ade_ctld.Index.Laws.{IsIndex}
use ade_ctld.Desktop.{DesktopEntry, File, opened, parse_desktop_file, is_header, opens_entry}
use ade_ctld.Desktop.Fields.{Parses, parse_desktop_file-Parses}
use ade_ctld.Executable.{ExecutableInfo, Visit, directory, file, scan_path}
use ade_ctld.Executable.Laws.{Among, IsFoundAt, scan_path_iff}
use ade_ctld.Indexer.{
  Event, desktop, executable, no_more_desktop, no_more_executables, run_indexing,
}
use ade_ctld.Indexer.Count.{
  Merge, both_closed, close_desktop, close_executables, contents, expected, next_desktop,
  next_executable, run_indexing_lem,
}
use ade_ctld.Config.Init.{
  Account, Startup, init, init_socket, load_rc_file, setup_watcher, unopened, with_lines, with_rc,
  with_socket,
}
use ade_ctld.Config.Startup.{GivesUp, Succeeds, init_lem, init_socket-get_socket_path}
use ade_ctld.Client.Socket.{get_socket_path}
use ade_ctld.Tests.Base.{ascii, machine, memory, settings}

abbrev one_run : memory.Db
one_run = (codes "/bin/vi", put_uint64 1) ∷ []

increment_no_runs : increment memory [] (codes "/bin/vi") ≡ updated one_run
unfolding increment store_count put_uint64 stored_count lookup insert
increment_no_runs = refl

abbrev pub found_sh : ExecutableInfo
found_sh = record { name = codes "sh"; path = codes "/bin/sh" }

abbrev pub found_editor : DesktopEntry
found_editor = record {
  name = codes "Editor";
  names = [];
  exec = codes "vi %f";
  terminal = true;
  categories = codes "Tool" ∷ [];
  path = codes "/apps/vi.desktop";
}

abbrev scan_events : List Event
scan_events =
    desktop found_editor ∷ executable found_sh ∷ no_more_executables ∷ no_more_desktop ∷ []

scan_events-Merge : Merge true true (found_sh ∷ []) (found_editor ∷ []) scan_events
scan_events-Merge = next_desktop (next_executable (close_executables (close_desktop both_closed)))

run_indexing_lem_example :
    IsIndex (run_indexing machine.hidden scan_events)
    × Permᴰ
        (contents (run_indexing machine.hidden scan_events))
        (expected machine.hidden (found_sh ∷ []) (found_editor ∷ []))
    × (count (run_indexing machine.hidden scan_events)
        ≡ length (expected machine.hidden (found_sh ∷ []) (found_editor ∷ [])))
run_indexing_lem_example = run_indexing_lem machine.hidden scan_events-Merge

abbrev editor_file : File
editor_file =
    opened (codes "[Desktop Entry]\nName=Editor\nExec=vi %f\nTerminal=true\nCategories=Tool;\n")
      none

editor_file_parsed :
    parse_desktop_file ascii (codes "/apps/vi.desktop") editor_file ≡ some found_editor
unfolding parse_desktop_file scan_lines str_eq trim_space has_prefix is_header has_suffix
    opens_entry trim_cut split_n2 to_lower split
editor_file_parsed = refl

parse_desktop_file-Parses_example :
    Parses ascii
      (codes "/apps/vi.desktop")
      editor_file
      (parse_desktop_file ascii (codes "/apps/vi.desktop") editor_file)
parse_desktop_file-Parses_example =
    parse_desktop_file-Parses ascii (codes "/apps/vi.desktop") editor_file

abbrev walk : List Visit
walk =
    directory (codes "/bin")
    ∷ file (codes "/bin/.x") 493
    ∷ file (codes "/bin/sh") 493
    ∷ file (codes "/bin/notes") 420
    ∷ []

scan_path_iff_example : Among (λ i. i ≡ found_sh) (scan_path walk) ↔ Among (IsFoundAt found_sh) walk
scan_path_iff_example = scan_path_iff found_sh walk

abbrev account : Account
account = record { uid = some (codes "1000"); home = some (codes "/home/u") }

init_socket-get_socket_path_example :
    init_socket account (codes "~/sock") ≡ get_socket_path account.uid account.home (codes "~/sock")
init_socket-get_socket_path_example = init_socket-get_socket_path account (codes "~/sock")

abbrev startup : Startup
startup = record {
  account = account;
  static = record settings.static { unix_socket = [] };
  env_error = none;
  rc_file = with_lines (codes "~/bin" ∷ []) none;
  new_watcher = none;
  watch_dir = none;
}

startup_quiet : (init startup).1 ≡ none
unfolding init with_socket with_rc setup_watcher init_socket load_rc_file str_eq cut_prefix
startup_quiet = refl

init_lem_example :
    ((init startup).1 ≡ none ↔ (startup.env_error ≡ none) × (GivesUp startup ⊎ Succeeds startup))
    × (startup.env_error ≡ none
        → init_socket startup.account startup.static.unix_socket ≡ none
        → init startup ≡ (record { static = startup.static; additional_paths = [] }, none))
init_lem_example = init_lem startup

-- A startup whose user is not found gives up, though it could not open its file.
init_lem_lost :
    init (record startup { account = record { uid = none; home = none }; rc_file = unopened [] })
    ≡ (record { static = startup.static; additional_paths = [] }, none)
unfolding init with_socket with_rc setup_watcher init_socket load_rc_file str_eq cut_prefix
init_lem_lost = refl
