-- ===== src/Tests/ServeExamples.antt =====
-- Commands and connections.
use mathlib.Core.List.{Permᴰ}
use ade_ctld.Text.{bytes_eq}
use ade_ctld.Common.{nat_eq}
use ade_ctld.Common.{
  EachPair, List, [], arith, false, insert, int64_limit, length, lookup, ltb→lt, pos, refl, some,
  true, uint64_modulus, ℕ, ◌++◌, ◌+◌, ◌∷◌, ◌≡◌, ◌≢◌, ◌≤◌,
}
use ade_ctld.Text.{Bytes, codes, str_eq, str_eq_iff}
use ade_ctld.Parser.{Command, Parser, Value, bool_value, int_value}
use ade_ctld.Parser.Input.{at_end, broken, failures, reader_of, split_lines}
use ade_ctld.Wire.Session.{text_parser}
use ade_ctld.Index.{Entry, get, add, values, get_all}
use ade_ctld.RunIndex.{increment, put_uint64}
use ade_ctld.RunIndex.Laws.{run_count}
use ade_ctld.Server.State.{Host, Server, done}
use ade_ctld.Server.Launch.{handle_run, run_args, run_id, run_response}
use ade_ctld.Server.Launch.Promotes.{IsCounted, handle_run-promotes}
use ade_ctld.Server.Dispatch.{execute_command, handle_connection}
use ade_ctld.Server.Dispatch.Step.{Keeps, execute_command-Keeps}
use ade_ctld.Server.Dispatch.Loop.{Ended, handle_connection-Ended}
use ade_ctld.Wire.Lines.{means_or}
use ade_ctld.Server.Filters.{filter_entries, matches_filters, passes}
use ade_ctld.Server.Filters.FromClient.{Sets, set_filter_name, set_filter_name-words}
use ade_ctld.Config.{list_limit}
use ade_ctld.Server.Listing.{filtered_entries, handle_list, handle_list_next, limit_size, list_page}
use ade_ctld.Server.Listing.Next.{Answers, handle_list_next_lem}
use ade_ctld.Tests.Base.{
  ascii, daemon, daemon-IsServer, machine, machine-IsFair, memory, no_runs-IsRunIndex, programs,
  settings, vi,
}

abbrev with_id : List Value
with_id = int_value (pos 3) ∷ []

abbrev third : Entry
third = record vi { id = 3 }

third_present : get (pos 3) programs ≡ some third
unfolding get add lookup insert
third_present = refl

with_id_asked : run_args with_id ≡ run_id (pos 3) false
unfolding run_args
with_id_asked = refl

abbrev run_third : Command
run_third = record { name = codes "run"; args = with_id }

execute_command-Keeps_example :
    Keeps memory run_third (execute_command memory ascii settings machine daemon run_third)
execute_command-Keeps_example =
    execute_command-Keeps memory ascii settings machine daemon daemon-IsServer run_third
      machine-IsFair

abbrev machines : ℕ → Host
machines n = machine

abbrev sent : Bytes
sent = codes "TXT013\nrun\nlist\n"

handle_connection-Ended_example :
    Ended memory (
      handle_connection memory ascii settings 6 machines sent
        (broken (codes "reset") at_end)
        daemon)
unfolding split_lines failures
handle_connection-Ended_example =
    handle_connection-Ended memory ascii settings 6 machines sent (broken (codes "reset") at_end)
      daemon (λ n. machine-IsFair) daemon-IsServer (ltb→lt 4 6 refl)

abbrev asks_vim : Parser
asks_vim = text_parser (set_filter_name (codes "vim") ++ []) at_end

abbrev asks_or : Parser
asks_or = text_parser (set_filter_name (codes "or") ++ []) at_end

set_filter_name-words_example :
    (t : Server memory.Db) × Sets memory ascii settings machine asks_or daemon t
    × (t.filters.name_filters ≡ [])
unfolding reader_of
set_filter_name-words_example =
    set_filter_name-words memory ascii settings machine asks_or daemon (codes "or") []
      (bool_value true (codes "or")) refl means_or refl

abbrev next_two : List Value
next_two = int_value (pos 1) ∷ int_value (pos 2) ∷ []

three_pass : length (filtered_entries memory ascii settings machine daemon) ≡ 3
unfolding filtered_entries filter_entries matches_filters passes get_all values add insert
three_pass = refl

next_two_fit :
    length (filtered_entries memory ascii settings machine daemon) + limit_size 2 next_two
    ≤ int64_limit
unfolding limit_size
next_two_fit = omega (arith, three_pass)

handle_list_next_lem_example :
    Answers memory ascii settings machine daemon
      (handle_list_next memory ascii settings machine daemon next_two)
unfolding list_limit
handle_list_next_lem_example =
    handle_list_next_lem memory ascii settings machine daemon next_two next_two_fit

-- the counts behind the first run of the third program
abbrev first_counts : memory.Db
unfolding insert
first_counts = insert third.path (put_uint64 1) []

first_run : IsCounted memory settings machine daemon with_id (pos 3) false third 42 first_counts
unfolding run_args get add lookup insert increment
first_run = record { asked = refl; present = refl; launched = refl; counted = refl }

handle_run-promotes_example :
    (t : Server memory.Db) × (l : List Entry) × (handle_run memory settings machine daemon with_id
      ≡ done t (run_response (pos 3) 42))
    × (handle_list memory ascii settings machine t
        ≡ done t (list_page daemon.lang (list_limit settings) l))
    × Permᴰ l (filter_entries ascii daemon.filters (values daemon.index.entries))
    × EachPair (λ x y. x.path ≡ codes "/bin/sh" → y.path ≢ third.path) l
unfolding run_count lookup
handle_run-promotes_example =
    handle_run-promotes memory settings machine daemon with_id ascii settings machine (pos 3) false
      third 42 first_counts (codes "/bin/sh") no_runs-IsRunIndex machine-IsFair first_run
      (λ e. cc ((str_eq_iff third.path (codes "/bin/sh")).1 e, apart)) (omega arith)
      (ltb→lt 1 uint64_modulus refl)
  where
    apart : str_eq third.path (codes "/bin/sh") ≡ false
    apart = unfold str_eq in refl
