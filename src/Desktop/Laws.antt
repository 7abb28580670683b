-- ===== src/Desktop/Laws.antt =====
-- What a parsed .desktop file looks like.
use ade_ctld.Common.{
  All, Bool, Bool-cases, List, Option, [], ap, false, if◌then◌else◌, inl, inr, none, not, refl,
  some, subst, true, ◌&&◌, ◌||◌, ◌∷◌, ◌≡◌, ◌≢◌, ◌⊎◌,
}
use ade_ctld.Text.{
  Bytes, Unicode, base_name, codes, has_prefix, has_suffix, scan_lines, split, str_eq, str_eq_iff,
  trim_space, trim_suffix,
}
use ade_ctld.Desktop.{set_pair, opens_entry, is_header, empty_entry}
use ade_ctld.Desktop.{
  DesktopEntry, File, clean_categories, finish, opened, parse_desktop_file, parse_lines, set_key,
  unopened,
}

-- a text without the space around it, and not empty
abbrev pub IsCategory : Bytes → Type 0
IsCategory c = ((raw : Bytes) × (c ≡ trim_space raw)) × (c ≢ [])

clean_categories-IsCategory : (raws : List Bytes) → All IsCategory (clean_categories raws)
unfolding clean_categories
clean_categories-IsCategory [] = tt
clean_categories-IsCategory (raw ∷ raws) = elim (Bool-cases (str_eq (trim_space raw) [])) [
  | inl e ↦ rw e (clean_categories-IsCategory raws)
  | inr e ↦ rw e (
    ((raw, refl), λ empty. absurd (cc (e, (str_eq_iff (trim_space raw) []).1 empty))),
    clean_categories-IsCategory raws,
  )
]

-- what the loop keeps: the path is the file's, and each category is one
pub record Keeps (path : Bytes) (e : DesktopEntry) : Type 0 where
  pub same_path : e.path ≡ path
  pub cats : All IsCategory e.categories

module _ (u : Unicode) (path : Bytes) where
  if-Keeps :
      (b : Bool) (d e : DesktopEntry)
      → Keeps path d
      → Keeps path e
      → Keeps path (if b then d else e)
  if-Keeps true d e hd he = hd
  if-Keeps false d e hd he = he

  -- the fields but for the path and the categories are free
  Keeps-fields :
      {name exec : Bytes} {names : List (Bytes × Bytes)} {terminal : Bool} (e : DesktopEntry)
      → Keeps path e
      → Keeps path (record {
        name = name;
        names = names;
        exec = exec;
        terminal = terminal;
        categories = e.categories;
        path = e.path;
      })
  Keeps-fields e k = record { same_path = k.same_path; cats = k.cats }

  set_key-Keeps :
      (key value : Bytes) (e : DesktopEntry) → Keeps path e → Keeps path (set_key u key value e)
  unfolding set_key
  set_key-Keeps key value e k = if-Keeps (str_eq key (codes "Name")) _ _ (Keeps-fields e k) (
      if-Keeps (str_eq key (codes "Exec")) _ _ (Keeps-fields e k) (
        if-Keeps (str_eq key (codes "Terminal")) _ _ (Keeps-fields e k) (
          if-Keeps (str_eq key (codes "Categories")) _ _
            (record {
              same_path = k.same_path;
              cats = clean_categories-IsCategory (split b';' value);
            })
            (if-Keeps (has_prefix key (codes "Name[") && has_suffix key (codes "]")) _ _
              (Keeps-fields e k) k))))

  set_pair-Keeps :
      (o : Option (Bytes × Bytes)) (e : DesktopEntry) → Keeps path e → Keeps path (set_pair u o e)
  unfolding set_pair
  set_pair-Keeps none e k = k
  set_pair-Keeps (some (key, value)) e k = set_key-Keeps (trim_space key) (trim_space value) e k

  parse_lines-Keeps :
      (inside : Bool) (lines : List Bytes) (e : DesktopEntry)
      → Keeps path e
      → Keeps path (parse_lines u inside lines e)
  unfolding parse_lines
  parse_lines-Keeps inside [] e k = k
  parse_lines-Keeps inside (raw ∷ lines) e k =
      parse_lines-Keeps
        (if not (str_eq (trim_space raw) [] || has_prefix (trim_space raw) (codes "#"))
            && is_header (trim_space raw)
          then opens_entry (trim_space raw)
          else inside)
        lines _ (if-Keeps _ _ _ k (set_pair-Keeps _ e k))

  -- The name is not empty, or it is the name of the file without its ending.
  abbrev IsNamed : DesktopEntry → Type 0
  IsNamed d = (d.name ≢ []) ⊎ (d.name ≡ trim_suffix (base_name path) (codes ".desktop"))

  finish-found :
      (e d : DesktopEntry) (n x : Bool)
      → Keeps path e
      → str_eq e.name [] ≡ n
      → str_eq e.exec [] ≡ x
      → (if n && x
          then none
          else if n
          then some (record e { name = trim_suffix (base_name e.path) (codes ".desktop") })
          else some e)
        ≡ some d
      → Keeps path d × IsNamed d × (d.exec ≡ e.exec)
  finish-found e d true true k hn hx h = absurd (cc)
  finish-found e d true false k hn hx h =
      let same : record e { name = trim_suffix (base_name e.path) (codes ".desktop") } ≡ d = cc in
      subst (λ d. Keeps path d × IsNamed d × (d.exec ≡ e.exec)) same
        (
          Keeps-fields e k,
          inr (ap (λ p. trim_suffix (base_name p) (codes ".desktop")) k.same_path),
          refl,
        )
  finish-found e d false x k hn hx h =
      let same : e ≡ d = cc in
      subst (λ d. Keeps path d × IsNamed d × (d.exec ≡ e.exec)) same
        (k, inl (λ empty. absurd (cc (hn, (str_eq_iff e.name []).1 empty))), refl)

  finish-Keeps :
      (e d : DesktopEntry)
      → Keeps path e
      → finish e ≡ some d
      → Keeps path d × IsNamed d × (d.exec ≡ e.exec)
  unfolding finish
  finish-Keeps e d k h = finish-found e d (str_eq e.name []) (str_eq e.exec []) k refl refl h

  -- What is parsed carries the path of its file, only categories that are not empty, without the
  -- space around them, and a name that is not empty or is the name of the file without `.desktop`.
  pub parse_desktop_file_lem :
      (file : File) (d : DesktopEntry)
      → parse_desktop_file u path file ≡ some d
      → (d.path ≡ path) × All IsCategory d.categories × IsNamed d
  unfolding parse_desktop_file
  parse_desktop_file_lem (unopened why) d h = absurd (cc h)
  parse_desktop_file_lem (opened contents (some why)) d h = absurd (cc h)
  parse_desktop_file_lem (opened contents none) d h =
      elim (Bool-cases (scan_lines contents).too_long) [
        | inl long ↦ absurd (cc (h, long))
        | inr short ↦
            let e = parse_lines u false (scan_lines contents).lines (empty_entry path) in
            let k =
              parse_lines-Keeps false (scan_lines contents).lines (empty_entry path)
                (record { same_path = refl; cats = tt }) in
            let (kept, named, _) = finish-Keeps e d k (rw short at h) in
            (kept.same_path, kept.cats, named)
      ]
