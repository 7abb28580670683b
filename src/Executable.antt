-- ===== src/Executable.antt =====
-- internal/indexer/executable/executable.go: the executable files below the search path.
pub mod Laws
use ade_ctld.Common.{
  Bool, List, Option, [], if◌then◌else◌, none, not, some, ℕ, ◌%◌, ◌++◌, ◌/◌, ◌==◌, ◌||◌, ◌∷◌,
}
use ade_ctld.Text.{Bytes, base_name, codes, has_prefix}

pub record ExecutableInfo : Type 0 where
  pub name : Bytes
  pub path : Bytes

-- A call of the function that `filepath.Walk` is given: at something that cannot be read, at a
-- directory, or at a file with its mode.
pub data Visit : Type 0 where
  unreadable : Visit
  directory : Bytes → Visit
  file : Bytes → ℕ → Visit

-- `isExecutable`: one of the three execute bits of the mode
unfoldable pub is_executable : ℕ → Bool
is_executable mode = mode % 2 == 1 || mode / 8 % 2 == 1 || mode / 64 % 2 == 1

-- the function that `scanPath` hands to `filepath.Walk`, and what it sends
unfoldable pub visit_file : Visit → Option ExecutableInfo
unfolding is_executable
visit_file unreadable = none
visit_file (directory path) = none
visit_file (file path mode) =
    if not (is_executable mode)
    then none
    else if has_prefix (base_name path) (codes ".")
    then none
    else some (record { name = base_name path; path = path })

-- `scanPath`: what is sent for the visits of a walk, in their order
unfoldable pub scan_path : List Visit → List ExecutableInfo
unfolding visit_file
scan_path [] = []
scan_path (v ∷ vs) = elim (visit_file v) [ none ↦ scan_path vs | some e ↦ e ∷ scan_path vs ]

-- `ScanPaths`: one walk after the other
unfoldable pub scan_paths : List (List Visit) → List ExecutableInfo
unfolding scan_path
scan_paths [] = []
scan_paths (walk ∷ walks) = scan_path walk ++ scan_paths walks
