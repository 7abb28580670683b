-- ===== src/CommandLine/Exits.antt =====
-- How the command line client ends (cmd/ade-exe-cli/main.go): the process behind `main`. What
-- `ReadResponse` writes to the error output, and the log, are left out.
use ade_ctld.Common.{
  List, Option, [], ap, append_assoc, inl, inr, none, refl, some, sym, ℕ, ◌++◌, ◌↔◌, ◌∙◌, ◌∷◌, ◌≡◌,
  ◌⊎◌,
}
use ade_ctld.Text.{Bytes}
use ade_ctld.Parser.Input.{Ending}
use ade_ctld.Client.Send.{Argument, proto_ver, send_command}
use ade_ctld.Client.Receive.{print_response}
use ade_ctld.Client.Connect.{Conn, Network, new_client, send_on}
use ade_ctld.Client.Connect.Laws.{Sends, new_client-connected, send_on_lem, sends_all}
use ade_ctld.CommandLine.{
  Action, interactive, main, main_command, out_of_range, send, unknown, usage,
}
use ade_ctld.CommandLine.Interactive.{interactive_session}

-- What is around the client: the network, what arrives on the connection and how it ends, and for the
-- interactive mode the lines of the standard input and what arrives for each answer that is read.
pub record Terminal : Type 0 where
  pub network : Network
  pub arrives : Bytes
  pub ending : Ending
  pub typed : List Bytes
  pub answers : List (Bytes × Ending)

-- The exit code with what has been printed, and how the process ends otherwise: with a panic, or not
-- at all within the rounds of `receive`.
pub data ProcessEnd : Type 0 where
  exits : ℕ → Bytes → ProcessEnd
  out_of_args : ProcessEnd
  still_reading : ProcessEnd

-- `ReadResponse` and `os.Exit(0)`
printed_exit : Option Bytes → ProcessEnd
printed_exit none = still_reading
printed_exit (some out) = exits 0 out

-- behind `SendCommand`
answered_exit : Terminal → Conn × Option Bytes → ProcessEnd
unfolding printed_exit
answered_exit t (conn, some why) = exits 1 []
answered_exit t (conn, none) = printed_exit (print_response t.arrives t.ending)

-- the switch, with a client
act : Terminal → Conn → Action → ProcessEnd
unfolding answered_exit
act t conn usage = exits 1 []
act t conn interactive = exits 0 (interactive_session t.typed t.answers conn).out
act t conn (send cmd args) = answered_exit t (send_on cmd args conn)
act t conn (unknown cmd) = exits 1 []
act t conn out_of_range = out_of_args

with_client : Terminal → Action → Conn ⊎ Bytes → ProcessEnd
unfolding act
with_client t action (inl conn) = act t conn action
with_client t action (inr why) = exits 1 []

-- `main` on `os.Args[1:]`: without arguments it prints the usage before there is a client.
unfoldable pub process_exit : Terminal → List Bytes → ProcessEnd
unfolding with_client
process_exit t [] = exits 1 []
process_exit t (cmd ∷ args) = with_client t (main_command cmd args) (new_client t.network)

-- There is a client, which has sent the whole command.
pub record Sent (t : Terminal) (args : List Bytes) : Type 0 where
  pub name : Bytes
  pub sent_args : List Argument
  pub conn : Conn
  pub last : Conn
  pub asked : main args ≡ send name sent_args
  pub connected : new_client t.network ≡ inl conn
  pub sent_on : send_on name sent_args conn ≡ (last, none)

-- The interactive mode has been asked for, there is a client, and this is what is printed for the
-- lines that are typed.
pub record TypesAll (t : Terminal) (args : List Bytes) (out : Bytes) : Type 0 where
  pub conn : Conn
  pub asked : main args ≡ interactive
  pub connected : new_client t.network ≡ inl conn
  pub shown : (interactive_session t.typed t.answers conn).out ≡ out

-- What has been sent by then.
Sent-bytes :
    {t : Terminal} {args : List Bytes} (s : Sent t args)
    → s.last.sent ≡ t.network.conn.sent ++ (proto_ver ++ send_command s.name s.sent_args)
Sent-bytes {t} s =
    by_sends (send_on s.name s.sent_args s.conn) (send_on_lem s.name s.sent_args s.conn) s.sent_on
  where
    before : s.conn.sent ≡ t.network.conn.sent ++ proto_ver
    before = (new_client-connected t.network s.conn s.connected).3

    by_sends :
        (r : Conn × Option Bytes)
        → Sends (send_command s.name s.sent_args) s.conn.sent r
        → r ≡ (s.last, none)
        → s.last.sent ≡ t.network.conn.sent ++ (proto_ver ++ send_command s.name s.sent_args)
    by_sends (conn, none) (sends_all e) h =
        ap (λ (r : Conn × Option Bytes). r.0.sent) (sym h)
        ∙ e
        ∙ ap (λ out. out ++ send_command s.name s.sent_args) before
        ∙ append_assoc t.network.conn.sent proto_ver (send_command s.name s.sent_args)
    by_sends (conn, some why) x h = absurd (cc h)

module _ (t : Terminal) (cmd : Bytes) (args : List Bytes) (out : Bytes) where
  abbrev EndsWell : Type 0
  EndsWell =
      (Sent t (cmd ∷ args) × (print_response t.arrives t.ending ≡ some out))
      ⊎ TypesAll t (cmd ∷ args) out

  printed-zero : (o : Option Bytes) → printed_exit o ≡ exits 0 out → o ≡ some out
  unfolding process_exit
  printed-zero none h = absurd (cc h)
  printed-zero (some shown) h = cc h

  answered-zero :
      (r : Conn × Option Bytes)
      → answered_exit t r ≡ exits 0 out
      → (r ≡ (r.0, none)) × (print_response t.arrives t.ending ≡ some out)
  unfolding process_exit
  answered-zero (conn, some why) h = absurd (cc h)
  answered-zero (conn, none) h = (refl, printed-zero (print_response t.arrives t.ending) h)

  act-zero :
      (conn : Conn) (action : Action)
      → main (cmd ∷ args) ≡ action
      → new_client t.network ≡ inl conn
      → act t conn action ≡ exits 0 out
      → EndsWell
  unfolding process_exit
  act-zero conn usage m c h = absurd (cc h)
  act-zero conn interactive m c h =
      inr (record { conn = conn; asked = m; connected = c; shown = cc h })
  act-zero conn (unknown name) m c h = absurd (cc h)
  act-zero conn out_of_range m c h = absurd (cc h)
  act-zero conn (send name sent_args) m c h =
      let (e, p) = answered-zero (send_on name sent_args conn) h in
      inl (
        record {
          name = name;
          sent_args = sent_args;
          conn = conn;
          last = (send_on name sent_args conn).0;
          asked = m;
          connected = c;
          sent_on = e;
        },
        p,
      )

  client-zero :
      (r : Conn ⊎ Bytes)
      → new_client t.network ≡ r
      → with_client t (main_command cmd args) r ≡ exits 0 out
      → EndsWell
  unfolding process_exit main
  client-zero (inl conn) c h = act-zero conn (main_command cmd args) refl c h
  client-zero (inr why) c h = absurd (cc h)

  zero-client : EndsWell → process_exit t (cmd ∷ args) ≡ exits 0 out
  unfolding process_exit main
  zero-client (inl (s, p)) = rw (s.connected, s.asked, s.sent_on, p) refl
  zero-client (inr i) = rw (i.connected, i.asked, i.shown) refl

-- The exit code of the command line client is 0 exactly if there is a client, and the arguments ask
-- for the interactive mode, or name a command that can be sent, and all of it has been sent. In the
-- interactive mode, failed commands and errors do not change that; else the answer is printed,
-- whatever it is, also one that is an error, and by then the header and the command have been sent.
pub process_exit_iff :
    (t : Terminal) (args : List Bytes)
    → ((out : Bytes)
        → (process_exit t args ≡ exits 0 out)
          ↔ ((Sent t args × (print_response t.arrives t.ending ≡ some out)) ⊎ TypesAll t args out))
      × ((s : Sent t args)
          → s.last.sent ≡ t.network.conn.sent ++ (proto_ver ++ send_command s.name s.sent_args))
unfolding process_exit main
process_exit_iff t [] = (
  λ out. (
    λ h. absurd (cc h),
    λ e. elim e [ inl (s, p) ↦ absurd (cc s.asked) | inr i ↦ absurd (cc i.asked) ],
  ),
  Sent-bytes,
)
process_exit_iff t (cmd ∷ args) = (
  λ out. (client-zero t cmd args out (new_client t.network) refl, zero-client t cmd args out),
  Sent-bytes,
)
