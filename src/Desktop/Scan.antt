-- ===== src/Desktop/Scan.antt =====
-- The .desktop files of the standard directories (internal/indexer/desktop/desktop.go).
use ade_ctld.Common.{
  All, All-append, Bool-cases, List, Option, [], if◌then◌else◌, inl, inr, none, not, refl, some,
  subst, sym, true, ◌++◌, ◌∷◌, ◌≡◌,
}
use ade_ctld.Text.{Bytes, Unicode, codes, has_suffix}
use ade_ctld.Desktop.{DesktopEntry, File, parse_desktop_file}
use ade_ctld.Desktop.Laws.{parse_desktop_file_lem}

-- A call of the function that `filepath.Walk` is given: at something that cannot be read, at a
-- directory, or at a file.
pub data FileVisit : Type 0 where
  unreadable : FileVisit
  directory : Bytes → FileVisit
  file : Bytes → File → FileVisit

module _ (u : Unicode) where
  -- the function that `scanDesktopPath` hands to `filepath.Walk`, and what it sends
  unfoldable pub visit_desktop_file : FileVisit → Option DesktopEntry
  visit_desktop_file unreadable = none
  visit_desktop_file (directory path) = none
  visit_desktop_file (file path contents) =
      if not (has_suffix path (codes ".desktop")) then none else parse_desktop_file u path contents

  -- `scanDesktopPath`: what is sent for the visits of a walk, in their order
  unfoldable pub scan_desktop_path : List FileVisit → List DesktopEntry
  unfolding visit_desktop_file
  scan_desktop_path [] = []
  scan_desktop_path (v ∷ vs) = elim (visit_desktop_file v) [
    | none ↦ scan_desktop_path vs
    | some e ↦ e ∷ scan_desktop_path vs
  ]

  -- `ScanDesktopFiles`: the walks through the three standard directories, one after the other
  unfoldable pub scan_desktop_files : List (List FileVisit) → List DesktopEntry
  unfolding scan_desktop_path
  scan_desktop_files [] = []
  scan_desktop_files (walk ∷ walks) = scan_desktop_path walk ++ scan_desktop_files walks

  -- an entry that comes from a file with the suffix, as it has been parsed
  pub record IsSent (e : DesktopEntry) : Type 0 where
    pub contents : File
    pub suffix : has_suffix e.path (codes ".desktop") ≡ true
    pub parsed : parse_desktop_file u e.path contents ≡ some e

  parsed-IsSent :
      (path : Bytes) (contents : File) (e : DesktopEntry)
      → has_suffix path (codes ".desktop") ≡ true
      → parse_desktop_file u path contents ≡ some e
      → IsSent e
  parsed-IsSent path contents e suffix h =
      let same = (parse_desktop_file_lem u path contents e h).0 in
      record {
        contents = contents;
        suffix = subst (λ p. has_suffix p (codes ".desktop") ≡ true) (sym same) suffix;
        parsed = subst (λ p. parse_desktop_file u p contents ≡ some e) (sym same) h;
      }

  visit_desktop_file-IsSent :
      (v : FileVisit) (e : DesktopEntry) → visit_desktop_file v ≡ some e → IsSent e
  unfolding visit_desktop_file
  visit_desktop_file-IsSent unreadable e h = absurd (cc h)
  visit_desktop_file-IsSent (directory path) e h = absurd (cc h)
  visit_desktop_file-IsSent (file path contents) e h =
      elim (Bool-cases (has_suffix path (codes ".desktop"))) [
        | inl suffix ↦ parsed-IsSent path contents e suffix (rw suffix at h)
        | inr other ↦ absurd (cc (rw other at h))
      ]

  add-IsSent :
      (o : Option DesktopEntry) (es : List DesktopEntry)
      → ((e : DesktopEntry) → o ≡ some e → IsSent e)
      → All IsSent es
      → All IsSent (elim o [ none ↦ es | some e ↦ e ∷ es ])
  add-IsSent none es h hs = hs
  add-IsSent (some e) es h hs = (h e refl, hs)

  scan_desktop_path-IsSent : (vs : List FileVisit) → All IsSent (scan_desktop_path vs)
  unfolding scan_desktop_path
  scan_desktop_path-IsSent [] = tt
  scan_desktop_path-IsSent (v ∷ vs) =
      add-IsSent (visit_desktop_file v) (scan_desktop_path vs) (visit_desktop_file-IsSent v)
        (scan_desktop_path-IsSent vs)

  -- Whatever the walks meet, each entry that is sent has been parsed from a file of its path, which
  -- ends in `.desktop`.
  pub scan_desktop_files-IsSent :
      (walks : List (List FileVisit)) → All IsSent (scan_desktop_files walks)
  unfolding scan_desktop_files
  scan_desktop_files-IsSent [] = tt
  scan_desktop_files-IsSent (walk ∷ walks) =
      All-append IsSent (scan_desktop_path walk) (scan_desktop_files walks)
        (scan_desktop_path-IsSent walk) (scan_desktop_files-IsSent walks)
