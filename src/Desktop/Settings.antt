-- ===== src/Desktop/Settings.antt =====
-- The settings that stand in the lines of a .desktop file, and that the loop of `ParseDesktopFile`
-- (internal/indexer/desktop/desktop.go) goes through them.
use ade_ctld.Text.{bytes_eq}
use ade_ctld.Common.{
  Bool, Bool-cases, List, Option, [], false, if◌then◌else◌, inl, inr, map, none, not, refl, some,
  sym, true, ◌&&◌, ◌==◌, ◌||◌, ◌∙◌, ◌∷◌, ◌≡◌, ◌⊎◌,
}
use ade_ctld.Text.{
  Bytes, Unicode, codes, has_prefix, has_suffix, scan_lines, split_n2, str_eq, trim_cut, trim_space,
}
use ade_ctld.Desktop.{set_pair, opens_entry, is_header, is_bracket}
use ade_ctld.Desktop.{DesktopEntry, parse_lines, set_key}

-- A line of a file: a section, by whether it is `Desktop Entry`; a key with its value; or neither.
pub data Line : Type 0 where
  ignored : Line
  section : Bool → Line
  setting : Bytes → Bytes → Line

setting_of : Option (Bytes × Bytes) → Line
setting_of none = ignored
setting_of (some (key, value)) = setting (trim_space key) (trim_space value)

-- a header is a line in brackets; what stands between all its brackets names the section
pub line_kind : Bytes → Line
unfolding setting_of
line_kind raw =
    let line = trim_space raw in
    if str_eq line [] || has_prefix line (codes "#")
    then ignored
    else if has_prefix line (codes "[") && has_suffix line (codes "]")
    then section (str_eq (trim_cut (λ c. c == b'[' || c == b']') line) (codes "Desktop Entry"))
    else setting_of (split_n2 b'=' line)

-- the keys and values in the sections `Desktop Entry`; the flag says whether the first line is in one
pub settings : Bool → List Line → List (Bytes × Bytes)
settings inside [] = []
settings inside (ignored ∷ lines) = settings inside lines
settings inside (section opens ∷ lines) = settings opens lines
settings true (setting key value ∷ lines) = (key, value) ∷ settings true lines
settings false (setting key value ∷ lines) = settings false lines

-- the settings of a file
unfoldable pub file_settings : Bytes → List (Bytes × Bytes)
unfolding settings line_kind
file_settings contents = settings false (map line_kind (scan_lines contents).lines)

-- the last value of a key, if it has one
unfoldable pub last_value : Bytes → List (Bytes × Bytes) → Option Bytes
last_value key [] = none
last_value key ((k, v) ∷ ps) = elim (last_value key ps) [
  | some later ↦ some later
  | none ↦ if str_eq k key then some v else none
]

abbrev pub made {ℓ} : {A : Type ℓ} → (Bytes → A) → A → Option Bytes → A
made f default none = default
made f default (some v) = f v

abbrev pub text_value : Bytes → List (Bytes × Bytes) → Bytes
text_value key ps = made (λ v. v) [] (last_value key ps)

module _ (u : Unicode) where
  unfoldable pub set_all : List (Bytes × Bytes) → DesktopEntry → DesktopEntry
  set_all [] e = e
  set_all ((key, value) ∷ ps) e = set_all ps (set_key u key value e)

  set_all-setting_of :
      (inside : Bool) (o : Option (Bytes × Bytes)) (lines : List Line) (e : DesktopEntry)
      → set_all (settings inside (setting_of o ∷ lines)) e
        ≡ set_all (settings inside lines) (if not inside then e else set_pair u o e)
  unfolding settings setting_of set_all parse_lines
  set_all-setting_of true none lines e = refl
  set_all-setting_of true (some (key, value)) lines e = refl
  set_all-setting_of false none lines e = refl
  set_all-setting_of false (some (key, value)) lines e = refl

  pub parse_lines-set_all :
      (inside : Bool) (lines : List Bytes) (e : DesktopEntry)
      → parse_lines u inside lines e ≡ set_all (settings inside (map line_kind lines)) e
  unfolding parse_lines settings line_kind set_all is_header opens_entry is_bracket
  parse_lines-set_all inside [] e = refl
  parse_lines-set_all inside (raw ∷ lines) e =
      elim (Bool-cases (str_eq (trim_space raw) [] || has_prefix (trim_space raw) (codes "#"))) [
        | inl blank ↦ rw blank (parse_lines-set_all inside lines e)
        | inr full ↦ rw full (elim (Bool-cases (is_header (trim_space raw))) [
          | inl header ↦ rw header (parse_lines-set_all (opens_entry (trim_space raw)) lines e)
          | inr plain ↦ rw plain (
              parse_lines-set_all inside lines _
              ∙ sym (
                  set_all-setting_of inside (split_n2 b'=' (trim_space raw)) (map line_kind lines)
                    e))
        ])
      ]

  -- A field that one key sets, and no other, has the last value of that key.
  module _ {B : Type 0} (field : DesktopEntry → B) (of_value : Bytes → B) (key : Bytes) where
    abbrev pub SetsField : Type 0
    SetsField =
        (k value : Bytes) (e : DesktopEntry)
        → field (set_key u k value e) ≡ (if str_eq k key then of_value value else field e)

    pub set_all-field :
        (ps : List (Bytes × Bytes)) (e : DesktopEntry)
        → SetsField
        → field (set_all ps e) ≡ made of_value (field e) (last_value key ps)
    unfolding set_all last_value
    set_all-field [] e h = refl
    set_all-field ((k, v) ∷ ps) e h =
        set_all-field ps (set_key u k v e) h
        ∙ by_later (last_value key ps) (Bool-cases (str_eq k key))
      where
        by_later :
            (o : Option Bytes)
            → (str_eq k key ≡ true) ⊎ (str_eq k key ≡ false)
            → made of_value (field (set_key u k v e)) o
              ≡ made of_value (field e) (elim o [
                | none ↦ if str_eq k key then some v else none
                | some later ↦ some later
              ])
        by_later (some later) b = refl
        by_later none (inl same) = h k v e ∙ rw same refl
        by_later none (inr other) = h k v e ∙ rw other refl
