-- ===== src/Server/Filters/FromClient.antt =====
-- `SetFilterName` of client/exe/client.go against the server: what its request does to the filters.
use ade_ctld.Common.{List, [], refl, ◌++◌, ◌∷◌, ◌≡◌}
use ade_ctld.Text.{Bytes, Unicode, codes, str_eq}
use ade_ctld.Parser.{Command, Parser, Value, command, parse_next, type_bool}
use ade_ctld.Parser.Input.{split_lines}
use ade_ctld.Client.Send.{send_command, text}
use ade_ctld.Wire.Lines.{Means}
use ade_ctld.Wire.Request.{none_left, one_more, parse_next-send_command}
use ade_ctld.RunIndex.{Bolt}
use ade_ctld.Config.{Config}
use ade_ctld.Server.State.{FilterExpr, Host, Server, done, success}
use ade_ctld.Server.Filters.{
  and_op, collect, collect_arg, handle_filter_name_replace, name_op, only_filter, start_with,
}
use ade_ctld.Server.Dispatch.{execute_command}

no_values :
    (v : Value) → v.kind ≡ type_bool → only_filter (collect_arg name_op v (start_with and_op)) ≡ []
unfolding collect_arg only_filter
no_values v word = rw word refl

-- the request of `SetFilterName`, for a query that is not empty
abbrev pub set_filter_name : Bytes → Bytes
set_filter_name query = send_command (codes "filter-name") (text query ∷ [])

module _ (bolt : Bolt) (u : Unicode) (cfg : Config) (host : Host) where
  -- The server reads the request and its handler succeeds with state `t`.
  abbrev pub Sets : Parser → Server bolt.Db → Server bolt.Db → Type 0
  Sets p s t =
      (cmd : Command) × (q : Parser) × (parse_next p ≡ (command cmd, q))
      × (execute_command bolt u cfg host s cmd ≡ done t (success (codes "filter-name")))

  abbrev with_names : Server bolt.Db → List FilterExpr → Server bolt.Db
  with_names s names = record s { filters = record s.filters { name_filters = names } }

  Sets-Means :
      (p : Parser) (s : Server bolt.Db) (query rest : Bytes) (v : Value)
      → p.reader.lines ≡ split_lines (set_filter_name query ++ rest)
      → Means (text query) v
      → Sets p s (with_names s (only_filter (collect name_op (v ∷ []) (start_with and_op))))
  unfolding execute_command str_eq handle_filter_name_replace
  Sets-Means p s query rest v unread m = (
    record { name = codes "filter-name"; args = v ∷ [] },
    _,
    parse_next-send_command p (codes "filter-name") (text query ∷ []) (v ∷ []) rest unread refl
        (one_more m none_left),
    refl,
  )

  -- For a query that `FormatArgument` writes as a boolean, one of the words `t`, `f`, `or`, `and`
  -- and `not`, the same request succeeds and leaves no name filter at all.
  pub set_filter_name-words :
      (p : Parser) (s : Server bolt.Db) (query rest : Bytes) (v : Value)
      → p.reader.lines ≡ split_lines (set_filter_name query ++ rest)
      → Means (text query) v
      → v.kind ≡ type_bool
      → (t : Server bolt.Db) × Sets p s t × (t.filters.name_filters ≡ [])
  unfolding collect
  set_filter_name-words p s query rest v unread m word =
      (_, Sets-Means p s query rest v unread m, no_values v word)
