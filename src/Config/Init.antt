-- ===== src/Config/Init.antt =====
-- `Init` and the loop of the watcher (internal/config/config.go).
use ade_ctld.Common.{
  Bool, List, Option, [], false, if◌then◌else◌, none, not, some, true, ◌&&◌, ◌++◌, ◌||◌, ◌∷◌,
}
use ade_ctld.Text.{Bytes, codes, cut_prefix, str_eq}
use ade_ctld.Config.{Config, Env, load_rc}

-- What `os` and `os/user` say: the identifier of the user, and the home directory, if they are
-- known.
pub record Account : Type 0 where
  pub uid : Option Bytes
  pub home : Option Bytes

-- the path that `Init` builds for a user
abbrev pub default_socket : Bytes → Bytes
default_socket uid = codes "/tmp/ade-" ++ (uid ++ codes "/indexd")

-- the second step: `none` where the home directory is wanted and not known
expand_socket : Account → Bytes → Option Bytes
expand_socket account socket = elim (cut_prefix socket (codes "~")) [
  | none ↦ some socket
  | some rest ↦ elim account.home [ none ↦ none | some dir ↦ some (dir ++ rest) ]
]

-- The socket that `Init` goes on with; `none` where it returns at one of the two steps.
unfoldable pub init_socket : Account → Bytes → Option Bytes
unfolding expand_socket
init_socket account socket =
    if str_eq socket []
    then (elim account.uid [ none ↦ none | some uid ↦ expand_socket account (default_socket uid) ])
    else expand_socket account socket

-- What opening and reading indexd.rc comes to: it cannot be opened or created, it has just been
-- created, or it has lines, behind which the scanner may have met an error.
pub data RcFile : Type 0 where
  unopened : Bytes → RcFile
  created : RcFile
  with_lines : List Bytes → Option Bytes → RcFile

-- `loadRC`: the settings, and the error that it returns
unfoldable pub load_rc_file : Option Bytes → RcFile → Config → Config × Option Bytes
load_rc_file home (unopened why) c = (c, some why)
load_rc_file home created c = (c, none)
load_rc_file home (with_lines lines err) c = (load_rc home lines c, err)

-- `setupWatcher`: whether the configuration has a watcher then, and the error. The arguments are the
-- errors of `fsnotify.NewWatcher` and of its method `Add`.
unfoldable pub setup_watcher : Option Bytes → Option Bytes → Bool × Option Bytes
setup_watcher (some why) watch_dir = (false, some why)
setup_watcher none watch_dir = (true, watch_dir)

-- What the system does during `Init`: `envconfig` fills in the environment and may fail, the file,
-- and the errors that `setupWatcher` meets.
pub record Startup : Type 0 where
  pub account : Account
  pub static : Env
  pub env_error : Option Bytes
  pub rc_file : RcFile
  pub new_watcher : Option Bytes
  pub watch_dir : Option Bytes

-- the first configuration
abbrev from_env : Env → Config
from_env env = record { static = env; additional_paths = [] }

-- the steps of `Init` behind the socket
unfoldable pub with_rc : Option Bytes → Config × Option Bytes → Config × Option Bytes
with_rc watcher_error (c, some why) = (c, some why)
with_rc watcher_error (c, none) = (c, watcher_error)

unfoldable pub with_socket : Startup → Option Bytes → Config × Option Bytes
unfolding with_rc
with_socket st none = (from_env st.static, none)
with_socket st (some socket) =
    with_rc (setup_watcher st.new_watcher st.watch_dir).1 (
      load_rc_file st.account.home st.rc_file
        (from_env (record st.static { unix_socket = socket })))

-- `Init`: the configuration and the error. The two steps of the socket declare an `err` of their
-- own, so a failure there returns no error, and leaves the socket as the environment has it.
unfoldable pub init : Startup → Config × Option Bytes
unfolding with_socket
init st = elim st.env_error [
  | some why ↦ (from_env st.static, some why)
  | none ↦ with_socket st (init_socket st.account st.static.unix_socket)
]

-- Whether `Init` leaves a watcher in the configuration: it does if it gets to `setupWatcher`, and
-- that to its `Add`.
unfoldable pub has_watcher : Startup → Bool
unfolding setup_watcher
has_watcher st = elim st.env_error [
  | some why ↦ false
  | none ↦ elim (init_socket st.account st.static.unix_socket) [
    | none ↦ false
    | some socket ↦
        elim (load_rc_file st.account.home st.rc_file
          (from_env (record st.static { unix_socket = socket }))).1 [
            | some why ↦ false
            | none ↦ (setup_watcher st.new_watcher st.watch_dir).0
          ]
  ]
]

-- `Run`, behind `Init`: it starts `watchLoop`, which panics if there is no watcher.
unfoldable pub run_panics : Startup → Bool
unfolding has_watcher
run_panics st = not (has_watcher st)

-- What the watcher of the directory reports: a change of a file, with the bits for a write and for
-- a creation, an error, or the end of one of its channels.
pub data Watched : Type 0 where
  changed : Bytes → Bool → Bool → RcFile → Watched
  watch_error : Watched
  watch_closed : Watched

-- `watchLoop`, over what the watcher reports; `rc_path` is the expanded path of indexd.rc. A failed
-- reload is logged only.
unfoldable pub watch_loop : Option Bytes → Bytes → List Watched → Config → Config
watch_loop home rc_path [] c = c
watch_loop home rc_path (watch_closed ∷ events) c = c
watch_loop home rc_path (watch_error ∷ events) c = watch_loop home rc_path events c
watch_loop home rc_path (changed name write create file ∷ events) c =
    watch_loop home rc_path events
      (if str_eq name rc_path && (write || create) then (load_rc_file home file c).0 else c)
