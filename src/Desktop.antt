-- ===== src/Desktop.antt =====
-- internal/indexer/desktop/desktop.go: .desktop files.
pub mod Names
pub mod Exec
pub mod Laws
pub mod Scan
pub mod Keys
pub mod Settings
pub mod Setters
pub mod Fields
use ade_ctld.Text.{bytes_eq}
use ade_ctld.Common.{
  Bool, List, Option, [], drop, false, if◌then◌else◌, insert, length, none, not, some, take, ℕ,
  ◌&&◌, ◌-◌, ◌==◌, ◌||◌, ◌∷◌,
}
use ade_ctld.Text.{
  Bytes, Scanned, Unicode, base_name, codes, cut_prefix, has_prefix, has_suffix, scan_lines, split,
  split_n2, str_eq, to_lower, trim_cut, trim_space, trim_suffix,
}

pub record DesktopEntry : Type 0 where
  pub name : Bytes
  pub names : List (Bytes × Bytes)
  pub exec : Bytes
  pub terminal : Bool
  pub categories : List Bytes
  pub path : Bytes

is_bracket : ℕ → Bool
is_bracket c = c == b'[' || c == b']'

-- whether a line is a section header
unfoldable pub is_header : Bytes → Bool
is_header line = has_prefix line (codes "[") && has_suffix line (codes "]")

-- whether the section of a header line is `Desktop Entry`
unfoldable pub opens_entry : Bytes → Bool
unfolding is_bracket
opens_entry line = str_eq (trim_cut is_bracket line) (codes "Desktop Entry")

-- the loop over the parts of the value of Categories
unfoldable pub clean_categories : List Bytes → List Bytes
clean_categories [] = []
clean_categories (raw ∷ cats) =
    let cat = trim_space raw in
    if str_eq cat [] then clean_categories cats else cat ∷ clean_categories cats

-- The switch on the key. `lower` is `strings.ToLower` of the value.
unfoldable pub set_key : Unicode → Bytes → Bytes → DesktopEntry → DesktopEntry
unfolding clean_categories
set_key u key value e =
    if str_eq key (codes "Name")
    then record e { name = value }
    else if str_eq key (codes "Exec")
    then record e { exec = value }
    else if str_eq key (codes "Terminal")
    then record e { terminal = str_eq (to_lower u value) (codes "true") }
    else if str_eq key (codes "Categories")
    then record e { categories = clean_categories (split b';' value) }
    else if has_prefix key (codes "Name[") && has_suffix key (codes "]")
    then record e { names = insert (take (length key - 1 - 5) (drop 5 key)) value e.names }
    else e

set_pair : Unicode → Option (Bytes × Bytes) → DesktopEntry → DesktopEntry
unfolding set_key
set_pair u none e = e
set_pair u (some (key, value)) e = set_key u (trim_space key) (trim_space value) e

-- The loop of `ParseDesktopFile`; the flag is `inDesktopEntry`.
unfoldable pub parse_lines : Unicode → Bool → List Bytes → DesktopEntry → DesktopEntry
unfolding set_pair
parse_lines u inside [] e = e
parse_lines u inside (raw ∷ lines) e =
    let line = trim_space raw in
    let skipped = str_eq line [] || has_prefix line (codes "#") in
    let header = not skipped && is_header line in
    parse_lines u (if header then opens_entry line else inside) lines
      (if skipped || header || not inside then e else set_pair u (split_n2 b'=' line) e)

-- The checks behind the loop.
unfoldable pub finish : DesktopEntry → Option DesktopEntry
finish e =
    if str_eq e.name [] && str_eq e.exec []
    then none
    else if str_eq e.name []
    then some (record e { name = trim_suffix (base_name e.path) (codes ".desktop") })
    else some e

abbrev empty_entry : Bytes → DesktopEntry
empty_entry path = record {
  name = [];
  names = [];
  exec = [];
  terminal = false;
  categories = [];
  path = path;
}

-- A file: it cannot be opened, or what can be read of it, with the error of reading further if there
-- is one. The scanner hands out the line that an error cuts off, as it does at the end.
pub data File : Type 0 where
  unopened : Bytes → File
  opened : Bytes → Option Bytes → File

-- what `ParseDesktopFile` makes of a file that can be opened, by the error of reading it
parse_opened : Unicode → Bytes → Scanned → Option Bytes → Option DesktopEntry
unfolding parse_lines finish
parse_opened u path scanned (some why) = none
parse_opened u path scanned none =
    if scanned.too_long then none else finish (parse_lines u false scanned.lines (empty_entry path))

-- `ParseDesktopFile`; `none` is an error.
unfoldable pub parse_desktop_file : Unicode → Bytes → File → Option DesktopEntry
unfolding parse_opened
parse_desktop_file u path (unopened why) = none
parse_desktop_file u path (opened contents err) = parse_opened u path (scan_lines contents) err

-- The loop of `IsNoDisplay`, which stops at the first NoDisplay key of the entry.
no_display_from : Unicode → Bool → List Bytes → Bool
no_display_from u inside [] = false
no_display_from u inside (raw ∷ lines) =
    let line = trim_space raw in
    let value = if inside then cut_prefix line (codes "NoDisplay=") else none in
    if is_header line then no_display_from u (opens_entry line) lines else elim value [
      | some after ↦ str_eq (to_lower u (trim_space after)) (codes "true")
      | none ↦ no_display_from u inside lines
    ]

-- `IsNoDisplay`: a file that cannot be opened is displayed.
unfoldable pub is_no_display : Unicode → Option Bytes → Bool
unfolding no_display_from
is_no_display u none = false
is_no_display u (some contents) = no_display_from u false (scan_lines contents).lines
