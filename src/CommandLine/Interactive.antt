-- ===== src/CommandLine/Interactive.antt =====
-- `runInteractive` of cmd/ade-exe-cli/main.go as a process: what it sends and prints for the lines that
-- are typed and for the answers that arrive.
use ade_ctld.Common.{
  List, Option, [], ap, append-nil, append_assoc, none, refl, some, sym, ◌++◌, ◌∙◌, ◌∷◌, ◌≡◌,
}
use ade_ctld.Text.{Bytes, codes}
use ade_ctld.Parser.Input.{Ending}
use ade_ctld.Client.Send.{Argument, format_argument, line_of, send_command}
use ade_ctld.Client.Receive.{print_response}
use ade_ctld.Client.Connect.{Conn, send_on, write}
use ade_ctld.CommandLine.{Prompt, leave, pass, prompt, run_interactive, submit}

-- The connection behind a part of the session, and what has been printed meanwhile.
pub record Printed : Type 0 where
  pub conn : Conn
  pub out : Bytes

abbrev pub prints : Bytes → Printed → Printed
prints bytes p = record { conn = p.conn; out = bytes ++ p.out }

abbrev pub prompt_mark : Bytes
prompt_mark = codes "> "

-- what `ReadResponse` prints; it does come to an end
shown_answer : Bytes × Ending → Bytes
shown_answer (input, ending) = elim (print_response input ending) [ none ↦ [] | some out ↦ out ]

-- Behind `SendCommand`: an error goes to the error output, and else an answer is read and printed.
-- The first argument is the rest of the loop. Without a further answer nothing arrives.
after_sending :
    (List (Bytes × Ending) → Conn → Printed) → List (Bytes × Ending) → Conn × Option Bytes → Printed
unfolding shown_answer
after_sending continue answers (conn, some why) = prints prompt_mark (continue answers conn)
after_sending continue [] (conn, none) = prints prompt_mark (continue [] conn)
after_sending continue (answer ∷ answers) (conn, none) =
    prints (shown_answer answer ++ prompt_mark) (continue answers conn)

-- the loop over the lines
unfoldable pub interactive_loop : List Bytes → List (Bytes × Ending) → Conn → Printed
unfolding after_sending
interactive_loop [] answers conn = record { conn = conn; out = [] }
interactive_loop (typed ∷ inputs) answers conn = elim (prompt typed) [
  | leave ↦ record { conn = conn; out = [] }
  | pass ↦ prints prompt_mark (interactive_loop inputs answers conn)
  | submit cmd args ↦ after_sending (interactive_loop inputs) answers (send_on cmd args conn)
]

-- `runInteractive`
unfoldable pub interactive_session : List Bytes → List (Bytes × Ending) → Conn → Printed
unfolding interactive_loop
interactive_session inputs answers conn =
    prints (codes "Interactive mode. Type commands or 'exit' to quit.\n> ")
      (interactive_loop inputs answers conn)

-- a connection whose writes succeed
abbrev pub sound_conn : Bytes → Conn
sound_conn sent = record { sent = sent; writes = [] }

pub send_on_sound :
    (name : Bytes) (args : List Argument) (sent : Bytes)
    → send_on name args (sound_conn sent) ≡ (sound_conn (sent ++ send_command name args), none)
unfolding send_on write send_command
send_on_sound name [] sent = refl
send_on_sound name (arg ∷ args) sent =
    send_on_sound name args (sent ++ line_of (format_argument arg))
    ∙ ap (λ out. (sound_conn out, none))
        (append_assoc sent (line_of (format_argument arg)) (send_command name args))

after_sending-conn :
    (continue : List (Bytes × Ending) → Conn → Printed) (answers : List (Bytes × Ending))
    (sent more : Bytes)
    → ((answers : List (Bytes × Ending))
        → (continue answers (sound_conn sent)).conn ≡ sound_conn (sent ++ more))
    → (after_sending continue answers (sound_conn sent, none)).conn ≡ sound_conn (sent ++ more)
unfolding interactive_loop
after_sending-conn continue [] sent more h = h []
after_sending-conn continue (answer ∷ answers) sent more h = h answers

-- Where writes succeed, the session sends what `run_interactive` says for the lines, whatever the
-- answers are.
pub interactive_loop-sends :
    (inputs : List Bytes) (answers : List (Bytes × Ending)) (sent : Bytes)
    → (interactive_loop inputs answers (sound_conn sent)).conn
      ≡ sound_conn (sent ++ run_interactive inputs)
unfolding interactive_loop run_interactive
interactive_loop-sends [] answers sent = ap sound_conn (sym (append-nil sent))
interactive_loop-sends (typed ∷ inputs) answers sent =
    by_prompt (interactive_loop-sends inputs) (prompt typed)
  where
    by_prompt :
        ((answers : List (Bytes × Ending)) (sent : Bytes)
          → (interactive_loop inputs answers (sound_conn sent)).conn
            ≡ sound_conn (sent ++ run_interactive inputs))
        → (p : Prompt)
        → (elim p as (λ x. Printed) [
          | leave ↦ record { conn = sound_conn sent; out = [] }
          | pass ↦ prints prompt_mark (interactive_loop inputs answers (sound_conn sent))
          | submit cmd args ↦
              after_sending (interactive_loop inputs) answers (send_on cmd args (sound_conn sent))
        ]).conn
          ≡ sound_conn (
              sent ++ (elim p as (λ x. Bytes) [
                | leave ↦ []
                | pass ↦ run_interactive inputs
                | submit cmd args ↦ send_command cmd args ++ run_interactive inputs
              ]))
    by_prompt ih leave = ap sound_conn (sym (append-nil sent))
    by_prompt ih pass = ih answers sent
    by_prompt ih (submit cmd args) =
        ap (λ r. (after_sending (interactive_loop inputs) answers r).conn)
          (send_on_sound cmd args sent)
        ∙ after_sending-conn (interactive_loop inputs) answers (sent ++ send_command cmd args)
            (run_interactive inputs) (λ rest. ih rest (sent ++ send_command cmd args))
        ∙ ap sound_conn (append_assoc sent (send_command cmd args) (run_interactive inputs))
