-- ===== src/Desktop/Exec.antt =====
-- The field codes of an Exec value: `removeFieldCodes`, `ExpandExecCommand`, `CleanExecCommand`.
pub mod Laws
use ade_ctld.Common.{
  Bool, Option, [], false, if◌then◌else◌, leb, none, some, true, ℕ, ◌&&◌, ◌++◌, ◌==◌, ◌||◌, ◌∷◌,
}
use ade_ctld.Text.{Bytes, codes, fields, join, replace_all}
use ade_ctld.Desktop.{DesktopEntry}

is_letter : ℕ → Bool
is_letter c = leb b'a' c && leb c b'z' || leb b'A' c && leb c b'Z'

-- What the loop does at `%` and the byte behind it: the bytes written, if the two are consumed.
code : ℕ → Option Bytes
unfolding is_letter
code next =
    if is_letter next || next == b'%' then some (if next == b'%' then codes "%" else []) else none

-- The flag says that the byte at hand stands behind `%` and is consumed with it.
remove_from : Bool → Bytes → Bytes
unfolding code
remove_from pending [] = []
remove_from true (c ∷ s) = remove_from false s
remove_from false (c ∷ []) = c ∷ []
remove_from false (c ∷ next ∷ s) = elim (c == b'%') [
  | false ↦ c ∷ remove_from false (next ∷ s)
  | true ↦ elim (code next) [
    | none ↦ c ∷ remove_from false (next ∷ s)
    | some out ↦ out ++ remove_from true (next ∷ s)
  ]
]

unfoldable pub remove_field_codes : Bytes → Bytes
unfolding remove_from
remove_field_codes s = remove_from false s

unfoldable pub expand_exec_command : DesktopEntry → Bytes → Bytes
expand_exec_command d file_path =
    let exec = replace_all d.exec (codes "%f") file_path in
    let exec = replace_all exec (codes "%F") file_path in
    let exec = replace_all exec (codes "%u") file_path in
    let exec = replace_all exec (codes "%U") file_path in
    let exec = replace_all exec (codes "%i") [] in
    let exec = replace_all exec (codes "%c") d.name in
    let exec = replace_all exec (codes "%k") d.path in remove_field_codes exec

unfoldable pub clean_exec_command : Bytes → Bytes
clean_exec_command exec = join (fields (remove_field_codes exec)) (codes " ")
