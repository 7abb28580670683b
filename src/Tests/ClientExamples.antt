-- ===== src/Tests/ClientExamples.antt =====
-- Clients: a process, and goroutines that share one.
use ade_ctld.Common.{nat_eq}
use ade_ctld.Common.{List, [], none, refl, some, ℕ, ◌++◌, ◌↔◌, ◌∷◌, ◌≡◌, ◌⊎◌}
use ade_ctld.Text.{Bytes, codes, cut_prefix, str_eq, trim_space}
use ade_ctld.Parser.Input.{at_end}
use ade_ctld.Client.Send.{proto_ver, send_command}
use ade_ctld.Client.Receive.{is_end_of_response, print_response, read_string, receive}
use ade_ctld.Client.Connect.{Network, new_client, send_on, write}
use ade_ctld.Client.Socket.{get_socket_path}
use ade_ctld.Client.Sharing.{
  ClientSteps, SharedClient, answered, holds, locked, locked-own_answer, no_step, one_more_step,
  reads, sends, set_progress, unused,
}
use ade_ctld.CommandLine.{main_command}
use ade_ctld.CommandLine.Exits.{Sent, Terminal, TypesAll, exits, process_exit, process_exit_iff}

abbrev network : Network
network = record {
  env_socket = codes "/tmp/s";
  uid = none;
  home = none;
  path_error = [];
  dial_error = λ path. none;
  conn = record { sent = []; writes = none ∷ none ∷ [] };
}

abbrev terminal : Terminal
terminal = record {
  network = network;
  arrives = codes "TXT01cmd: list\n\n\n";
  ending = at_end;
  typed = codes "exit" ∷ [];
  answers = [];
}

abbrev list_args : List Bytes
list_args = codes "list" ∷ []

process_exit_iff_example :
    ((out : Bytes)
      → (process_exit terminal list_args ≡ exits 0 out) ↔ (
          (Sent terminal list_args × (print_response terminal.arrives terminal.ending ≡ some out))
          ⊎ TypesAll terminal list_args out))
    × ((s : Sent terminal list_args)
        → s.last.sent ≡ network.conn.sent ++ (proto_ver ++ send_command s.name s.sent_args))
process_exit_iff_example = process_exit_iff terminal list_args

-- The process with these arguments does end with exit code 0.
lists : process_exit terminal list_args ≡ exits 0 (codes "cmd: list\n")
unfolding process_exit main_command send_on new_client print_response get_socket_path cut_prefix
    write str_eq receive read_string trim_space is_end_of_response
lists = refl

abbrev one_answered : SharedClient
one_answered = record {
  holder = none;
  pending = [];
  progress = set_progress 4 (answered 4) (set_progress 4 locked unused.progress);
}

abbrev one_call_Steps : ClientSteps (λ i. holds) unused one_answered
one_call_Steps =
    one_more_step (one_more_step no_step (sends 4 refl refl)) (reads 4 4 refl refl refl)

locked-own_answer_example : ◌≡◌ {A = ℕ} 4 4
locked-own_answer_example = locked-own_answer one_call_Steps ((tt, tt), tt) (λ i. refl) 4 4 refl
