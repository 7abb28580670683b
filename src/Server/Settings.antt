-- ===== src/Server/Settings.antt =====
-- `lang` and `reindex`.
use ade_ctld.Common.{List, Option, [], none, some, ◌++◌, ◌∷◌}
use ade_ctld.Text.{Bytes, codes}
use ade_ctld.Strconv.{format_uint}
use ade_ctld.Parser.{Value, type_string}
use ade_ctld.Index.{count}
use ade_ctld.Indexer.{indexing_paths, run_indexing}
use ade_ctld.Config.{Config, expand_path}
use ade_ctld.Server.State.{Host, Outcome, Server, done, write_error, write_response}

module _ {Db : Type 0} (s : Server Db) where
  missing_parameter : Outcome Db
  missing_parameter = done s (
      write_error (codes "lang") (codes "missing parameter")
        (codes "lang command requires a string parameter"))

  -- `handleLang`
  unfoldable pub handle_lang : List Value → Outcome Db
  unfolding missing_parameter
  handle_lang [] = missing_parameter
  handle_lang (first ∷ args) = elim first.kind [
    | type_string ↦
        done (record s { lang = first.str })
          (write_response (codes "cmd: lang\nstatus: 0\nlang: " ++ (first.str ++ codes "\n\n\n")))
    | _ ↦ missing_parameter
  ]

-- The first loop of `handleReindex`: `none` at an argument that is not a string.
unfoldable pub string_args : List Value → Option (List Bytes)
string_args [] = some []
string_args (arg ∷ args) = elim arg.kind [
  | type_string ↦ elim (string_args args) [ none ↦ none | some paths ↦ some (arg.str ∷ paths) ]
  | _ ↦ none
]

-- The second loop: the tilde and the working directory.
unfoldable pub expand_paths : Host → List Bytes → List Bytes
expand_paths host [] = []
expand_paths host (path ∷ paths) =
    let expanded = expand_path host.home path in
    (elim (host.absolute expanded) [ some absolute ↦ absolute | none ↦ expanded ])
    ∷ expand_paths host paths

module _ {Db : Type 0} (cfg : Config) (host : Host) (s : Server Db) where
  -- `Reindex` waits for the scanners, fills a new index and counts its entries.
  reindex : List Bytes → Outcome Db
  unfolding run_indexing
  reindex paths =
      let index = run_indexing host.hidden (host.scan (indexing_paths cfg paths)) in
      done (record s { index = index })
        (write_response (
          codes "cmd: reindex\nstatus: 0\nindexed: "
          ++ (format_uint (count index) ++ codes "\n\n\n")))

  -- `handleReindex`
  unfoldable pub handle_reindex : List Value → Outcome Db
  unfolding reindex
  handle_reindex args = elim (string_args args) [
    | none ↦ done s (
        write_error (codes "reindex") (codes "invalid argument")
          (codes "reindex command accepts only string path arguments"))
    | some paths ↦ reindex (expand_paths host paths)
  ]
