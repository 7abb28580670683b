-- ===== src/Client/Socket.antt =====
-- client/exe/config.go: the socket that a client connects to.
use ade_ctld.Common.{Option, [], if◌then◌else◌, none, not, some, ◌++◌}
use ade_ctld.Text.{Bytes, codes, cut_prefix, str_eq}

-- `getSocketPath`, on the value of ADE_INDEXD_SOCK (empty where it is not set), the identifier of
-- the user and the home directory; `none` is an error.
unfoldable pub get_socket_path : Option Bytes → Option Bytes → Bytes → Option Bytes
get_socket_path uid home socket_path =
    if not (str_eq socket_path [])
    then (elim (cut_prefix socket_path (codes "~")) [
      | none ↦ some socket_path
      | some rest ↦ elim home [ none ↦ none | some dir ↦ some (dir ++ rest) ]
    ])
    else elim uid [ none ↦ none | some id ↦ some (codes "/tmp/ade-" ++ (id ++ codes "/indexd")) ]
