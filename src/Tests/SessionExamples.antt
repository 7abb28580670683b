-- ===== src/Tests/SessionExamples.antt =====
-- A client and the server together.
use mathlib.Core.List.{Permᴰ}
use ade_ctld.Text.{bytes_eq}
use ade_ctld.Common.{nat_eq}
use ade_ctld.Common.{
  All, Bool-cases, EachPair, List, [], arith, if◌then◌else◌, inl, inr, insert, int64_limit, length,
  lookup, ltb→lt, map, pos, refl, some, take, ℕ, ◌++◌, ◌<◌, ◌==◌, ◌∷◌, ◌≡◌,
}
use ade_ctld.Text.{Bytes, codes, fields, has_prefix, last_width, str_eq}
use ade_ctld.Strconv.{format_int, format_uint}
use ade_ctld.Parser.{Command, int_value}
use ade_ctld.Parser.Input.{at_end, split_lines}
use ade_ctld.Index.{Entry, add, values}
use ade_ctld.Client.Send.{format_argument, proto_ver, send_command}
use ade_ctld.Client.Calls.{client_list, ok}
use ade_ctld.Config.{list_limit}
use ade_ctld.Wire.Session.{Request, requests}
use ade_ctld.Wire.Applications.{IsReadable, shown_app}
use ade_ctld.Server.State.{Host, done, write_error, write_response}
use ade_ctld.Server.Filters.{filter_entries}
use ade_ctld.Server.Listing.{handle_list, shown_name}
use ade_ctld.Server.Listing.Response.{InFront}
use ade_ctld.Server.Dispatch.{closed, execute_command, handle_connection}
use ade_ctld.Server.Dispatch.Frame.{LeavesFramed, execute_command-LeavesFramed}
use ade_ctld.Server.Dispatch.Requests.{handle_connection-requests, run_commands}
use ade_ctld.Server.Answers.Commands.{IsClean, IsCleanCommand, IsCleanHost}
use ade_ctld.Server.Answers.Listed.{client_list-handle_list}
use ade_ctld.Server.Answers.Session.{AnswersAll, AreGood, handle_connection-answers}
use ade_ctld.CommandLine.Served.{Ends, main_lem}
use ade_ctld.Tests.Base.{ascii, daemon, daemon-IsServer, machine, machine-IsFair, memory, settings}
use ade_ctld.Tests.WireExamples.{or_vim, run_one, vim_filter, vim_filter-MeansRequests}

abbrev pub machines : ℕ → Host
machines n = machine

abbrev two_requests : List Request
two_requests = vim_filter ∷ run_one ∷ []

abbrev two_commands : List Command
two_commands =
    record { name = codes "+filter-name"; args = or_vim }
    ∷ record { name = codes "run"; args = int_value (pos 1) ∷ [] }
    ∷ []

five_lines : length (split_lines (requests two_requests)) < 6
unfolding send_command format_argument has_prefix str_eq split_lines format_int format_uint
five_lines = ltb→lt 5 6 refl

handle_connection-requests_example :
    handle_connection memory ascii settings 6 machines
      (proto_ver ++ requests two_requests)
      at_end
      daemon
    ≡ run_commands memory ascii settings machines two_commands daemon []
handle_connection-requests_example =
    handle_connection-requests memory ascii settings 6 machines two_requests two_commands daemon
      vim_filter-MeansRequests five_lines

daemon-IsClean : IsClean daemon
unfolding values add insert
daemon-IsClean = record {
  clean_lang = omega arith;
  clean_entries = (
    record { clean_name = omega arith; clean_names = tt },
    (
      record { clean_name = omega arith; clean_names = tt },
      (record { clean_name = omega arith; clean_names = tt }, tt),
    ),
  );
}

pub machine-IsCleanHost : IsCleanHost machine
machine-IsCleanHost = record {
  clean_errors = λ argv why e. absurd (cc e);
  clean_scan = λ paths. tt;
}

daemon-AreReadable : All (IsReadable daemon.lang) (values daemon.index.entries)
unfolding values add insert fields shown_name lookup str_eq last_width
daemon-AreReadable = (
  record {
    id_fits = ltb→lt 1 int64_limit refl;
    word = codes "sh";
    words = [];
    same_words = refl;
    name_back = refl;
  },
  (
    record {
      id_fits = ltb→lt 2 int64_limit refl;
      word = codes "ed";
      words = [];
      same_words = refl;
      name_back = refl;
    },
    (
      record {
        id_fits = ltb→lt 3 int64_limit refl;
        word = codes "vi";
        words = [];
        same_words = refl;
        name_back = refl;
      },
      tt,
    ),
  ),
)

client_list-handle_list_example :
    (l : List Entry) × (response : Bytes) × (handle_list memory ascii settings machine daemon
      ≡ done daemon response)
    × Permᴰ l (filter_entries ascii daemon.filters (values daemon.index.entries))
    × EachPair (InFront memory ascii settings daemon.run_index) l
    × (client_list (response ++ codes "TXT01") at_end
        ≡ some (ok (map (shown_app daemon.lang) (take (list_limit settings) l)) (codes "TXT01")))
client_list-handle_list_example =
    client_list-handle_list memory ascii settings machine daemon (codes "TXT01") at_end
      machine-IsFair daemon-IsServer daemon-IsClean daemon-AreReadable

machines-AreGood : AreGood machines
machines-AreGood = record { all_fair = λ n. machine-IsFair; all_clean = λ n. machine-IsCleanHost }

handle_connection-answers_example : AnswersAll memory ascii settings (length two_requests) (
    handle_connection memory ascii settings 6 machines
      (proto_ver ++ requests two_requests)
      at_end
      daemon)
handle_connection-answers_example =
    handle_connection-answers memory ascii settings 6 machines two_requests two_commands daemon
      vim_filter-MeansRequests five_lines machines-AreGood daemon-IsServer daemon-IsClean

main_lem_example :
    Ends memory ascii settings (codes "run" ∷ codes "7" ∷ []) machines daemon (
      closed daemon (
        write_error
          (codes "run")
          (codes "missing id")
          (codes "run command requires an id parameter")))
    × Ends memory ascii settings (codes "list-next" ∷ codes "7" ∷ []) machines daemon (
        closed daemon (
          write_error
            (codes "list-next")
            (codes "missing offset")
            (codes "list-next command requires an offset parameter")))
    × Ends memory ascii settings (codes "lang" ∷ codes "7" ∷ []) machines daemon (
        closed
          (record daemon { lang = codes "[7]\"" })
          (write_response (codes "cmd: lang\nstatus: 0\nlang: [7]\"\n\n\n")))
main_lem_example = main_lem memory ascii settings (codes "7") [] machines daemon (omega arith)

abbrev list_lines : List Bytes
list_lines = codes "len: 1" ∷ []

-- connection 0 has a command, the others have none
abbrev pub one_reset : ℕ → List Command
one_reset i = if i == 0 then record { name = codes "0filters"; args = [] } ∷ [] else []

pub one_reset-IsCleanCommand : (i : ℕ) → All IsCleanCommand (one_reset i)
one_reset-IsCleanCommand i = elim (Bool-cases (i == 0)) [
  | inl e ↦ rw e (record { clean_command = omega arith; clean_args = tt }, tt)
  | inr e ↦ rw e tt
]

execute_command-LeavesFramed_example : LeavesFramed (codes "lang") daemon (
    execute_command memory ascii settings machine daemon
      (record { name = codes "lang"; args = [] }))
execute_command-LeavesFramed_example =
    execute_command-LeavesFramed memory ascii settings machine daemon daemon-IsServer
      (record { name = codes "lang"; args = [] }) machine-IsFair
