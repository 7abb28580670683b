-- ===== src/Desktop/Fields.antt =====
-- What `ParseDesktopFile` (internal/indexer/desktop/desktop.go) reads off a file: for each key of the
-- sections `Desktop Entry`, its last value.
use ade_ctld.Text.{bytes_eq}
use ade_ctld.Common.{
  Bool-cases, List, Option, [], ap, false, inl, inr, lookup, none, refl, some, subst, sym, true,
  ◌∙◌, ◌∷◌, ◌≡◌, ◌≢◌,
}
use ade_ctld.Text.{
  Bytes, Unicode, base_name, codes, scan_lines, split, str_eq, str_eq_iff, to_lower, trim_space,
  trim_suffix,
}
use ade_ctld.Desktop.{empty_entry}
use ade_ctld.Desktop.{
  DesktopEntry, File, clean_categories, finish, opened, parse_desktop_file, parse_lines, set_key,
  unopened,
}
use ade_ctld.Desktop.Keys.{
  Sets, name_key, set_key-Sets, sets_categories, sets_exec, sets_localized, sets_name, sets_nothing,
  sets_terminal,
}
use ade_ctld.Desktop.Settings.{
  file_settings, last_value, made, parse_lines-set_all, set_all, set_all-field, text_value,
}
use ade_ctld.Desktop.Setters.{
  categories-SetsField, exec-SetsField, name-SetsField, names-SetsField, terminal-SetsField,
}

-- The categories that a list of parts names: each part without the space around it, in their order,
-- but for those that are then empty.
pub data NamesCategories : List Bytes → List Bytes → Type 0 where
  no_part : NamesCategories [] []
  empty_part :
      {part : Bytes} {parts cats : List Bytes}
      → trim_space part ≡ []
      → NamesCategories parts cats
      → NamesCategories (part ∷ parts) cats
  named_part :
      {part : Bytes} {parts cats : List Bytes}
      → trim_space part ≢ []
      → NamesCategories parts cats
      → NamesCategories (part ∷ parts) (trim_space part ∷ cats)

clean_categories-NamesCategories :
    (parts : List Bytes) → NamesCategories parts (clean_categories parts)
unfolding clean_categories
clean_categories-NamesCategories [] = no_part
clean_categories-NamesCategories (part ∷ parts) = elim (Bool-cases (str_eq (trim_space part) [])) [
  | inl empty ↦ rw empty (
      empty_part ((str_eq_iff (trim_space part) []).0 empty)
        (clean_categories-NamesCategories parts))
  | inr full ↦ rw full (
      named_part (λ e. cc ((str_eq_iff (trim_space part) []).1 e, full))
        (clean_categories-NamesCategories parts))
]

-- The categories of a file: those of the value of its key, between the semicolons, or none.
pub data HasCategories : Option Bytes → List Bytes → Type 0 where
  without_key : HasCategories none []
  with_value :
      {value : Bytes} {cats : List Bytes}
      → NamesCategories (split b';' value) cats
      → HasCategories (some value) cats

made-HasCategories :
    (o : Option Bytes) → HasCategories o (made (λ v. clean_categories (split b';' v)) [] o)
made-HasCategories none = without_key
made-HasCategories (some value) = with_value (clean_categories-NamesCategories (split b';' value))

module _ (u : Unicode) where
  -- What the settings of a file make of an entry: for each key its last value, or what is there
  -- without one; the categories are those that this value names.
  pub record IsDescribed (path : Bytes) (ps : List (Bytes × Bytes)) (e : DesktopEntry)
      : Type 0 where
    pub same_path : e.path ≡ path
    pub same_exec : e.exec ≡ text_value (codes "Exec") ps
    pub same_terminal :
        e.terminal
        ≡ made (λ v. str_eq (to_lower u v) (codes "true")) false (last_value (codes "Terminal") ps)
    pub same_categories : HasCategories (last_value (codes "Categories") ps) e.categories
    pub same_names : (locale : Bytes) → lookup locale e.names ≡ last_value (name_key locale) ps

  -- What `ParseDesktopFile` returns for a file: an error, if it cannot be opened or read to its end, if
  -- a line is too long, or neither Name nor
  -- Exec has a value; or an entry, whose name is that of the file without one.
  pub data Parses (path : Bytes) : File → Option DesktopEntry → Type 0 where
    refuses_unopened : {why : Bytes} → Parses path (unopened why) none
    refuses_unread : {contents why : Bytes} → Parses path (opened contents (some why)) none
    refuses_long :
        {contents : Bytes}
        → (scan_lines contents).too_long ≡ true
        → Parses path (opened contents none) none
    refuses_empty :
        {contents : Bytes}
        → text_value (codes "Name") (file_settings contents) ≡ []
        → text_value (codes "Exec") (file_settings contents) ≡ []
        → Parses path (opened contents none) none
    names_by_file :
        {contents : Bytes} {e : DesktopEntry}
        → (scan_lines contents).too_long ≡ false
        → text_value (codes "Name") (file_settings contents) ≡ []
        → text_value (codes "Exec") (file_settings contents) ≢ []
        → e.name ≡ trim_suffix (base_name path) (codes ".desktop")
        → IsDescribed path (file_settings contents) e
        → Parses path (opened contents none) (some e)
    names_by_key :
        {contents : Bytes} {e : DesktopEntry}
        → (scan_lines contents).too_long ≡ false
        → e.name ≡ text_value (codes "Name") (file_settings contents)
        → e.name ≢ []
        → IsDescribed path (file_settings contents) e
        → Parses path (opened contents none) (some e)

  set_all-path : (ps : List (Bytes × Bytes)) (e : DesktopEntry) → (set_all u ps e).path ≡ e.path
  unfolding set_all
  set_all-path [] e = refl
  set_all-path ((k, v) ∷ ps) e =
      set_all-path ps (set_key u k v e) ∙ by_key (set_key u k v e) (set_key-Sets u k v e)
    where
      by_key : (d : DesktopEntry) → Sets u k v e d → d.path ≡ e.path
      by_key d (sets_name h) = refl
      by_key d (sets_exec h) = refl
      by_key d (sets_terminal h) = refl
      by_key d (sets_categories h) = refl
      by_key d (sets_localized locale h) = refl
      by_key d (sets_nothing n x t c l) = refl

  some-made : (o : Option Bytes) → made some none o ≡ o
  some-made none = refl
  some-made (some v) = refl

  module _ (path contents : Bytes) where
    abbrev parsed : DesktopEntry
    parsed = parse_lines u false (scan_lines contents).lines (empty_entry path)

    parsed-set_all : parsed ≡ set_all u (file_settings contents) (empty_entry path)
    unfolding file_settings
    parsed-set_all = parse_lines-set_all u false (scan_lines contents).lines (empty_entry path)

    parsed-name : parsed.name ≡ text_value (codes "Name") (file_settings contents)
    parsed-name =
        ap (λ (e : DesktopEntry). e.name) parsed-set_all
        ∙ set_all-field u _ _ _ (file_settings contents) (empty_entry path) (name-SetsField u)

    parsed-IsDescribed : IsDescribed path (file_settings contents) parsed
    unfolding lookup
    parsed-IsDescribed =
        subst (IsDescribed path (file_settings contents)) (sym parsed-set_all) (record {
          same_path = set_all-path (file_settings contents) (empty_entry path);
          same_exec =
              set_all-field u _ _ _ (file_settings contents) (empty_entry path) (exec-SetsField u);
          same_terminal =
              set_all-field u _ _ _ (file_settings contents) (empty_entry path)
                (terminal-SetsField u);
          same_categories =
              subst (HasCategories (last_value (codes "Categories") (file_settings contents)))
                (sym (
                  set_all-field u _ _ _ (file_settings contents) (empty_entry path)
                    (categories-SetsField u)))
                (made-HasCategories _);
          same_names = λ locale.
              set_all-field u _ _ _ (file_settings contents) (empty_entry path)
                (names-SetsField u locale)
              ∙ some-made (last_value (name_key locale) (file_settings contents));
        })

    finished :
        (scan_lines contents).too_long ≡ false → Parses path (opened contents none) (finish parsed)
    unfolding finish
    finished short = elim (Bool-cases (str_eq parsed.name [])) [
      | inr named ↦ rw named (
          names_by_key short parsed-name (λ e. cc ((str_eq_iff parsed.name []).1 e, named))
            parsed-IsDescribed)
      | inl unnamed ↦
          let no_name = sym parsed-name ∙ (str_eq_iff parsed.name []).0 unnamed in
          rw unnamed (elim (Bool-cases (str_eq parsed.exec [])) [
            | inl no_exec ↦ rw no_exec (
                refuses_empty no_name
                  (sym parsed-IsDescribed.same_exec ∙ (str_eq_iff parsed.exec []).0 no_exec))
            | inr starts ↦ rw starts (
                names_by_file short no_name
                  (λ e.
                    cc ((str_eq_iff parsed.exec []).1 (parsed-IsDescribed.same_exec ∙ e), starts))
                  (ap (λ p. trim_suffix (base_name p) (codes ".desktop"))
                    parsed-IsDescribed.same_path)
                  (renamed parsed-IsDescribed))
          ])
    ]
      where
        renamed :
            {name : Bytes}
            → IsDescribed path (file_settings contents) parsed
            → IsDescribed path (file_settings contents) (record parsed { name = name })
        renamed d = record {
          same_path = d.same_path;
          same_exec = d.same_exec;
          same_terminal = d.same_terminal;
          same_categories = d.same_categories;
          same_names = d.same_names;
        }

  -- `ParseDesktopFile` returns an error exactly if the file cannot be opened or read to its end, if a
  -- line of it is too long, or if neither Name nor Exec has a value in the sections `Desktop Entry`.
  -- Else it returns an entry with the path; Exec, Terminal, Categories and the name for each locale
  -- are the last values of their keys in these sections, and so is the name, or it is that of the
  -- file without its suffix.
  pub parse_desktop_file-Parses :
      (path : Bytes) (file : File) → Parses path file (parse_desktop_file u path file)
  unfolding parse_desktop_file
  parse_desktop_file-Parses path (unopened why) = refuses_unopened
  parse_desktop_file-Parses path (opened contents (some why)) = refuses_unread
  parse_desktop_file-Parses path (opened contents none) =
      elim (Bool-cases (scan_lines contents).too_long) [
        | inl long ↦ rw long (refuses_long long)
        | inr short ↦ rw short (finished path contents short)
      ]
