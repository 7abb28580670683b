-- ===== src/Desktop/Names.antt =====
-- `GetLocalizedName`: the name in a language, by way of less and less exact locales.
use ade_ctld.Text.{bytes_eq}
use ade_ctld.Common.{List, Option, [], if◌then◌else◌, lookup, none, some, suc, take, zero, ℕ}
use ade_ctld.Text.{Bytes, index, str_eq}
use ade_ctld.Desktop.{DesktopEntry}

-- the name for the part of the locale in front of a separator, if it is not empty
by_language : ℕ → Bytes → List (Bytes × Bytes) → Option Bytes
by_language sep locale names = elim (index sep locale) [
  | none ↦ none
  | some zero ↦ none
  | some (suc i) ↦ lookup (take (suc i) locale) names
]

or_else : Option Bytes → Option Bytes → Option Bytes
or_else none b = b
or_else (some a) b = some a

unfoldable pub get_localized_name : DesktopEntry → Bytes → Bytes
unfolding by_language or_else
get_localized_name d locale =
    if str_eq locale []
    then d.name
    else elim (or_else (lookup locale d.names)
        (or_else (by_language b'_' locale d.names) (by_language b'-' locale d.names))) [
          | some name ↦ name
          | none ↦ d.name
        ]
