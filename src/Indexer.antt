-- ===== src/Indexer.antt =====
-- internal/indexer/indexer.go: filling the index from the two channels of the scanners.
pub mod Count
pub mod Channels
pub mod Overlap
use ade_ctld.Common.{Bool, List, [], false, if◌then◌else◌, true, ◌∷◌}
use ade_ctld.Text.{Bytes}
use ade_ctld.Index.{Entry, Index, add, new_index}
use ade_ctld.Config.{Config, search_path, terminal}
use ade_ctld.Desktop.{DesktopEntry}
use ade_ctld.Executable.{ExecutableInfo}

-- What a round of the `select` of `processResults` may find ready.
pub data Event : Type 0 where
  cancelled : Event
  executable : ExecutableInfo → Event
  no_more_executables : Event
  desktop : DesktopEntry → Event
  no_more_desktop : Event

abbrev pub entry_of_executable : ExecutableInfo → Entry
entry_of_executable e = record {
  id = 0;
  name = e.name;
  names = [];
  path = e.path;
  exec = e.path;
  terminal = false;
  categories = [];
  is_desktop = false;
}

abbrev pub entry_of_desktop : DesktopEntry → Entry
entry_of_desktop d = record {
  id = 0;
  name = d.name;
  names = d.names;
  path = d.path;
  exec = d.exec;
  terminal = d.terminal;
  categories = d.categories;
  is_desktop = true;
}

-- `processResults`: the flags say that the channels have not been set to nil. A nil channel is
-- never ready, so an event of a closed one does not occur. `hidden` is `desktop.IsNoDisplay`.
unfoldable pub process_results : (Bytes → Bool) → Bool → Bool → List Event → Index → Index
process_results hidden execs desks [] idx = idx
process_results hidden execs desks (cancelled ∷ events) idx = idx
process_results hidden execs desks (executable e ∷ events) idx =
    process_results hidden execs desks events (add (entry_of_executable e) idx).0
process_results hidden execs desks (no_more_executables ∷ events) idx =
    let rest = process_results hidden false desks events idx in if desks then rest else idx
process_results hidden execs desks (desktop d ∷ events) idx =
    process_results hidden execs desks events
      (if hidden d.path then idx else (add (entry_of_desktop d) idx).0)
process_results hidden execs desks (no_more_desktop ∷ events) idx =
    let rest = process_results hidden execs false events idx in if execs then rest else idx

-- `runIndexing`, from the events of its channels: a new index is filled.
unfoldable pub run_indexing : (Bytes → Bool) → List Event → Index
unfolding process_results
run_indexing hidden events = process_results hidden true true events new_index

-- the paths that `Reindex` hands on
unfoldable pub indexing_paths : Config → List Bytes → List Bytes
indexing_paths cfg [] = search_path cfg
indexing_paths cfg paths = paths
