-- ===== src/Client/Connect/Laws.antt =====
-- What is sent on a connection whose writes may fail (client/exe/client.go).
use ade_ctld.Common.{
  List, Option, [], ap, append-nil, append_assoc, drop, inl, none, refl, some, subst, suc, sym,
  take, zero, ℕ, ◌++◌, ◌∙◌, ◌∷◌, ◌≡◌,
}
use ade_ctld.Text.{Bytes, codes}
use ade_ctld.Client.Send.{Argument, format_argument, line_of, proto_ver, send_command}
use ade_ctld.Client.Socket.{get_socket_path}
use ade_ctld.Client.Connect.{
  Conn, Failure, Network, and_write, dialled, new_client, send_on, with_header, write, write_result,
}

-- All of `bytes` has been sent and there is no error, or the beginning of it, and there is one.
pub data Sends (bytes out : Bytes) : Conn × Option Bytes → Type 0 where
  sends_all : {conn : Conn} → conn.sent ≡ out ++ bytes → Sends bytes out (conn, none)
  sends_part :
      {conn : Conn} {why : Bytes} (part missing : Bytes)
      → conn.sent ≡ out ++ part
      → part ++ missing ≡ bytes
      → Sends bytes out (conn, some why)

take-rest : (n : ℕ) (s : Bytes) → take n s ++ drop n s ≡ s
take-rest zero s = refl
take-rest (suc n) [] = refl
take-rest (suc n) (c ∷ s) = ap (λ t. c ∷ t) (take-rest n s)

write-Sends : (bytes : Bytes) (conn : Conn) → Sends bytes conn.sent (write bytes conn)
unfolding write
write-Sends bytes conn = by_writes conn.writes
  where
    by_writes :
        (writes : List (Option Failure))
        → Sends bytes conn.sent (write_result bytes conn.sent writes)
    by_writes [] = sends_all refl
    by_writes (none ∷ writes) = sends_all refl
    by_writes (some f ∷ writes) =
        sends_part (take f.sent bytes) (drop f.sent bytes) refl (take-rest f.sent bytes)

-- a write, and what is behind it
and_write-Sends :
    (message first more out : Bytes) (continue : Conn → Conn × Option Bytes)
    (r : Conn × Option Bytes)
    → Sends first out r
    → ((conn : Conn) → Sends more conn.sent (continue conn))
    → Sends (first ++ more) out (and_write message continue r)
unfolding and_write
and_write-Sends message first more out continue (conn, none) (sends_all e) h =
    after (continue conn) (h conn)
  where
    after : (r : Conn × Option Bytes) → Sends more conn.sent r → Sends (first ++ more) out r
    after (last, none) (sends_all k) =
        sends_all (k ∙ ap (λ s. s ++ more) e ∙ append_assoc out first more)
    after (last, some why) (sends_part part missing k m) =
        sends_part (first ++ part) missing (k ∙ ap (λ s. s ++ part) e ∙ append_assoc out first part)
          (append_assoc first part missing ∙ ap (λ s. first ++ s) m)
and_write-Sends message first more out continue (conn, some why) (sends_part part missing k m) h =
    sends_part part (missing ++ more) k
      (sym (append_assoc part missing more) ∙ ap (λ s. s ++ more) m)

-- If `SendCommand` returns no error, it has sent the whole request behind what was sent before; if it
-- returns one, it has sent a beginning of the request.
pub send_on_lem :
    (name : Bytes) (args : List Argument) (conn : Conn)
    → Sends (send_command name args) conn.sent (send_on name args conn)
unfolding send_command send_on
send_on_lem name [] conn =
    subst (λ s. Sends s conn.sent (send_on name [] conn)) (append-nil (line_of name))
      (and_write-Sends (codes "failed to send command: ") (line_of name) [] conn.sent
        (λ c. (c, none)) (write (line_of name) conn) (write-Sends (line_of name) conn)
        (λ c. sends_all (sym (append-nil c.sent))))
send_on_lem name (arg ∷ args) conn =
    and_write-Sends (codes "failed to send argument: ") (line_of (format_argument arg))
      (send_command name args) conn.sent (send_on name args)
      (write (line_of (format_argument arg)) conn)
      (write-Sends (line_of (format_argument arg)) conn) (send_on_lem name args)

-- A client that `NewClient` returns has sent the header on a connection to the socket.
pub new_client-connected :
    (net : Network) (conn : Conn)
    → new_client net ≡ inl conn
    → (path : Bytes) × (get_socket_path net.uid net.home net.env_socket ≡ some path)
      × (net.dial_error path ≡ none)
      × (conn.sent ≡ net.conn.sent ++ proto_ver)
unfolding new_client
new_client-connected net conn = by_path (get_socket_path net.uid net.home net.env_socket) refl
  where
    by_write :
        (r : Conn × Option Bytes)
        → Sends proto_ver net.conn.sent r
        → with_header r ≡ inl conn
        → conn.sent ≡ net.conn.sent ++ proto_ver
    by_write (made, none) (sends_all k) h =
        let same : made ≡ conn = cc h in ap (λ (c : Conn). c.sent) (sym same) ∙ k
    by_write (made, some why) s h = absurd (cc h)

    by_dial :
        (path : Bytes) (o : Option Bytes)
        → net.dial_error path ≡ o
        → dialled net (some path) ≡ inl conn
        → (net.dial_error path ≡ none) × (conn.sent ≡ net.conn.sent ++ proto_ver)
    by_dial path none e h = (
      e,
      by_write (write proto_ver net.conn) (write-Sends proto_ver net.conn) (rw (e, dialled) at h),
    )
    by_dial path (some why) e h = absurd (cc (rw (e, dialled) at h))

    by_path :
        (o : Option Bytes)
        → get_socket_path net.uid net.home net.env_socket ≡ o
        → dialled net o ≡ inl conn
        → (path : Bytes) × (get_socket_path net.uid net.home net.env_socket ≡ some path)
          × (net.dial_error path ≡ none)
          × (conn.sent ≡ net.conn.sent ++ proto_ver)
    by_path none e h = absurd (cc h)
    by_path (some path) e h =
        let (d, s) = by_dial path (net.dial_error path) refl h in (path, e, d, s)
