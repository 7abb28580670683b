-- ===== src/Tests/WireExamples.antt =====
-- The protocol: numbers, requests, and the commands that are read from them.
use ade_ctld.Common.{
  List, [], arith, false, inl, int64_limit, ltb→lt, pos, refl, some, true, ◌++◌, ◌∷◌, ◌≡◌, ◌≢◌,
}
use ade_ctld.Text.{Bytes, codes, has_prefix, last_width, str_eq, str_eq_iff}
use ade_ctld.Parser.{
  Parser, Value, bool_value, command, int_value, new_parser, parse_next, parser, read_all_commands,
  string_value,
}
use ade_ctld.Parser.Input.{at_end, reader_of, split_lines}
use ade_ctld.Client.Send.{proto_ver, send_command, signed, text}
use ade_ctld.Wire.Lines.{IsArgument, IsPlain, means_or, means_plain, means_signed}
use ade_ctld.Wire.Request.{MeansAll, none_left, one_more, parse_next-send_command}
use ade_ctld.Wire.Session.{
  MeansRequests, Request, all_read, next_request, read_all_commands-requests, requests, text_parser,
}

ne_by : (a b : Bytes) → str_eq a b ≡ false → a ≢ b
ne_by a b h e = absurd (cc (h, (str_eq_iff a b).1 e))

pub vim-IsPlain : IsPlain (codes "vim")
unfolding has_prefix str_eq
vim-IsPlain = record {
  unquoted = refl;
  ne_t = ne_by (codes "vim") (codes "t") refl;
  ne_f = ne_by (codes "vim") (codes "f") refl;
  ne_or = ne_by (codes "vim") (codes "or") refl;
  ne_and = ne_by (codes "vim") (codes "and") refl;
  ne_not = ne_by (codes "vim") (codes "not") refl;
}

pub vim-IsArgument : IsArgument (codes "vim")
unfolding last_width
vim-IsArgument = record { one_line = omega arith; back = refl }

abbrev pub vim_filter : Request
vim_filter = record {
  name = codes "+filter-name";
  arguments = text (codes "or") ∷ text (codes "vim") ∷ [];
}

abbrev pub run_one : Request
run_one = record { name = codes "run"; arguments = signed (pos 1) ∷ [] }

abbrev pub or_vim : List Value
or_vim = bool_value true (codes "or") ∷ string_value (codes "vim") ∷ []

vim_filter-MeansAll : MeansAll vim_filter.arguments or_vim
vim_filter-MeansAll =
    one_more means_or (one_more (means_plain vim-IsArgument vim-IsPlain) none_left)

run_one-MeansAll : MeansAll run_one.arguments (int_value (pos 1) ∷ [])
run_one-MeansAll = one_more (means_signed (ltb→lt 1 int64_limit refl)) none_left

pub vim_filter-MeansRequests : MeansRequests (vim_filter ∷ run_one ∷ []) (
    record { name = codes "+filter-name"; args = or_vim }
    ∷ record { name = codes "run"; args = int_value (pos 1) ∷ [] }
    ∷ [])
unfolding str_eq
vim_filter-MeansRequests =
    next_request refl vim_filter-MeansAll (next_request refl run_one-MeansAll all_read)

read_all_commands-requests_example :
    (p : Parser) × (new_parser (proto_ver ++ requests (vim_filter ∷ run_one ∷ [])) at_end
      ≡ parser p)
    × (read_all_commands p
        ≡ some (
            inl (
              record { name = codes "+filter-name"; args = or_vim }
              ∷ record { name = codes "run"; args = int_value (pos 1) ∷ [] }
              ∷ [])))
read_all_commands-requests_example =
    read_all_commands-requests (vim_filter ∷ run_one ∷ [])
      (record { name = codes "+filter-name"; args = or_vim }
        ∷ record { name = codes "run"; args = int_value (pos 1) ∷ [] }
        ∷ [])
      vim_filter-MeansRequests

abbrev waiting : Parser
waiting =
    text_parser (send_command (codes "+filter-name") vim_filter.arguments ++ codes "list\n") at_end

parse_next-send_command_example : parse_next waiting ≡ (
  command (record { name = codes "+filter-name"; args = or_vim }),
  record waiting { reader = record waiting.reader { lines = split_lines (codes "list\n") } },
)
unfolding reader_of str_eq
parse_next-send_command_example =
    parse_next-send_command waiting (codes "+filter-name") vim_filter.arguments or_vim
      (codes "list\n") refl refl vim_filter-MeansAll
