-- ===== src/Config.antt =====
-- internal/config/config.go: the settings, from the environment (`envconfig` fills in `Env`) and
-- from the file indexd.rc.
pub mod Laws
pub mod Init
pub mod Startup
use ade_ctld.Common.{
  List, Option, [], if◌then◌else◌, negsuc, none, not, pos, some, suc, zero, ℕ, ℤ, ◌++◌, ◌||◌, ◌∷◌,
}
use ade_ctld.Text.{Bytes, codes, cut_prefix, has_prefix, split, str_eq, trim_space}

pub record Env : Type 0 where
  pub path : Bytes
  pub terminal : Bytes
  pub unix_socket : Bytes
  pub workers : ℤ
  pub list_limit : ℤ

pub record Config : Type 0 where
  pub static : Env
  pub additional_paths : List Bytes

-- the parts of a text that are not empty
unfoldable pub non_empty : List Bytes → List Bytes
non_empty [] = []
non_empty (p ∷ ps) = if str_eq p [] then non_empty ps else p ∷ non_empty ps

-- `Path`
unfoldable pub search_path : Config → List Bytes
search_path c = non_empty (split b':' c.static.path) ++ c.additional_paths

-- `Terminal`; the second argument is the variable TERM.
unfoldable pub terminal : Config → Bytes → Bytes
terminal c term =
    if not (str_eq c.static.terminal [])
    then c.static.terminal
    else if not (str_eq term [])
    then term
    else codes "xterm"

positive_or : ℕ → ℤ → ℕ
positive_or default (pos zero) = default
positive_or default (pos (suc n)) = suc n
positive_or default (negsuc n) = default

-- `Workers`
unfoldable pub workers : Config → ℕ
unfolding positive_or
workers c = positive_or 4 c.static.workers

-- `ListLimit`
unfoldable pub list_limit : Config → ℕ
unfolding positive_or
list_limit c = positive_or 128 c.static.list_limit

-- `expandPath`, and the method of the same name in server/server.go: `strings.Replace` of the first
-- tilde, which is the first byte. `home` is what `os.UserHomeDir` returns, if it does not fail.
unfoldable pub expand_path : Option Bytes → Bytes → Bytes
expand_path home path = elim (cut_prefix path (codes "~")) [
  | none ↦ path
  | some rest ↦ elim home [ none ↦ path | some dir ↦ dir ++ rest ]
]

-- The loop of `loadRC` over the lines of indexd.rc.
unfoldable pub rc_paths : Option Bytes → List Bytes → List Bytes
rc_paths home [] = []
rc_paths home (raw ∷ lines) =
    let line = trim_space raw in
    if str_eq line [] || has_prefix line (codes "#")
    then rc_paths home lines
    else expand_path home line ∷ rc_paths home lines

-- `loadRC` on a file that has been read
unfoldable pub load_rc : Option Bytes → List Bytes → Config → Config
unfolding rc_paths
load_rc home lines c = record c { additional_paths = rc_paths home lines }
