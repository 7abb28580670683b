-- ===== src/Client/Connect.antt =====
-- `NewClient`, and `SendCommand` on a connection whose writes may fail (client/exe/client.go).
pub mod Laws
use ade_ctld.Common.{List, Option, [], inl, inr, none, some, take, ℕ, ◌++◌, ◌∷◌, ◌⊎◌}
use ade_ctld.Text.{Bytes, codes}
use ade_ctld.Client.Send.{Argument, format_argument, line_of, proto_ver}
use ade_ctld.Client.Socket.{get_socket_path}

-- A write that fails: how much of it has been sent, and the error.
pub record Failure : Type 0 where
  pub sent : ℕ
  pub why : Bytes

-- A connection: what has been sent on it, and what the next writes come to. Behind the list, writes
-- succeed.
pub record Conn : Type 0 where
  pub sent : Bytes
  pub writes : List (Option Failure)

pub write_result : Bytes → Bytes → List (Option Failure) → Conn × Option Bytes
write_result bytes out [] = (record { sent = out ++ bytes; writes = [] }, none)
write_result bytes out (none ∷ writes) = (record { sent = out ++ bytes; writes = writes }, none)
write_result bytes out (some f ∷ writes) =
    (record { sent = out ++ take f.sent bytes; writes = writes }, some f.why)

-- `Write` of a connection
unfoldable pub write : Bytes → Conn → Conn × Option Bytes
unfolding write_result
write bytes conn = write_result bytes conn.sent conn.writes

-- what is behind a write: the rest if it has succeeded, or an error
unfoldable pub and_write :
    Bytes → (Conn → Conn × Option Bytes) → Conn × Option Bytes → Conn × Option Bytes
and_write message continue (conn, none) = continue conn
and_write message continue (conn, some why) = (conn, some (message ++ why))

-- `SendCommand`: a write for each argument, and one for the command
unfoldable pub send_on : Bytes → List Argument → Conn → Conn × Option Bytes
unfolding and_write
send_on name [] conn =
    and_write (codes "failed to send command: ") (λ c. (c, none)) (write (line_of name) conn)
send_on name (arg ∷ args) conn =
    and_write (codes "failed to send argument: ") (send_on name args)
      (write (line_of (format_argument arg)) conn)

-- What the system does for `NewClient`: the variable ADE_INDEXD_SOCK, the user and the home
-- directory, with the error if one that is needed is not known; dialling a path; the connection.
pub record Network : Type 0 where
  pub env_socket : Bytes
  pub uid : Option Bytes
  pub home : Option Bytes
  pub path_error : Bytes
  pub dial_error : Bytes → Option Bytes
  pub conn : Conn

pub with_header : Conn × Option Bytes → Conn ⊎ Bytes
with_header (conn, none) = inl conn
with_header (conn, some why) = inr (codes "failed to send header: " ++ why)

pub dialled : Network → Option Bytes → Conn ⊎ Bytes
unfolding with_header
dialled net none = inr (codes "failed to get socket path: " ++ net.path_error)
dialled net (some path) = elim (net.dial_error path) [
  | some why ↦ inr (codes "failed to connect to socket " ++ (path ++ (codes ": " ++ why)))
  | none ↦ with_header (write proto_ver net.conn)
]

-- `NewClient`
unfoldable pub new_client : Network → Conn ⊎ Bytes
unfolding dialled
new_client net = dialled net (get_socket_path net.uid net.home net.env_socket)

-- `Close`: the error of closing the connection, if there is one
unfoldable pub close_client : (Conn → Option Bytes) → Option Conn → Option Bytes
close_client close_conn none = none
close_client close_conn (some conn) = close_conn conn
