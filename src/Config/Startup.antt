-- ===== src/Config/Startup.antt =====
-- What holds behind `Init` and behind the loop of the watcher (internal/config/config.go), and that
-- the client (client/exe/config.go) finds the socket of the server.
use ade_ctld.Common.{
  All, Bool, Bool-cases, List, Option, [], ap, false, if◌then◌else◌, inl, inr, none, refl, some,
  true, ◌&&◌, ◌++◌, ◌||◌, ◌↔◌, ◌∙◌, ◌∷◌, ◌≡◌, ◌⊎◌,
}
use ade_ctld.Text.{Bytes, cut_prefix, str_eq, str_eq_iff}
use ade_ctld.Config.{Config, load_rc, rc_paths}
use ade_ctld.Config.Init.{
  Account, RcFile, Startup, Watched, changed, created, has_watcher, init, init_socket, load_rc_file,
  run_panics, setup_watcher, unopened, watch_closed, watch_error, watch_loop, with_lines, with_rc,
  with_socket,
}
use ade_ctld.Client.Socket.{get_socket_path}

-- For the same user in the same environment, the client and the server agree on the socket, or both
-- fail to find one.
pub init_socket-get_socket_path :
    (account : Account) (socket : Bytes)
    → init_socket account socket ≡ get_socket_path account.uid account.home socket
unfolding init_socket get_socket_path cut_prefix
init_socket-get_socket_path account socket = elim (Bool-cases (str_eq socket [])) [
  | inl e ↦ rw e (elim account.uid [ none ↦ refl | some uid ↦ refl ])
  | inr e ↦ rw e refl
]

-- The file has been read to its end, or created.
pub data Loads : RcFile → Type 0 where
  loads_nothing : Loads created
  loads_lines : {lines : List Bytes} → Loads (with_lines lines none)

module _ (st : Startup) where
  abbrev socket_of : Option Bytes
  socket_of = init_socket st.account st.static.unix_socket

  abbrev found_socket : Bytes → Config
  found_socket socket = record {
    static = record st.static { unix_socket = socket };
    additional_paths = [];
  }

  -- `Init` has given up at the socket.
  abbrev pub GivesUp : Type 0
  GivesUp =
      (socket_of ≡ none) × ((init st).0 ≡ record { static = st.static; additional_paths = [] })

  -- All steps of `Init` have succeeded.
  abbrev pub Succeeds : Type 0
  Succeeds =
      (socket : Bytes) × (socket_of ≡ some socket)
      × Loads st.rc_file
      × ((setup_watcher st.new_watcher st.watch_dir).1 ≡ none)
      × ((init st).0 ≡ (load_rc_file st.account.home st.rc_file (found_socket socket)).0)

  loaded :
      (socket : Bytes) (file : RcFile) (watcher_error : Option Bytes)
      → (with_rc watcher_error (load_rc_file st.account.home file (found_socket socket))).1 ≡ none
      → Loads file
        × (watcher_error ≡ none)
        × ((with_rc watcher_error (load_rc_file st.account.home file (found_socket socket))).0
            ≡ (load_rc_file st.account.home file (found_socket socket)).0)
  unfolding load_rc_file with_rc
  loaded socket (unopened why) watcher_error h = absurd (cc h)
  loaded socket created watcher_error h = (loads_nothing, h, refl)
  loaded socket (with_lines lines (some why)) watcher_error h = absurd (cc h)
  loaded socket (with_lines lines none) watcher_error h = (loads_lines, h, refl)

  init_cases :
      (env_error : Option Bytes) (socket : Option Bytes)
      → st.env_error ≡ env_error
      → socket_of ≡ socket
      → (init st).1 ≡ none
      → (st.env_error ≡ none) × (GivesUp ⊎ Succeeds)
  unfolding init with_socket
  init_cases (some why) socket he hs h = absurd (cc (rw he at h))
  init_cases none none he hs h = (he, inl (hs, rw (he, hs) refl))
  init_cases none (some socket) he hs h =
      let (l, w, e) =
        loaded socket st.rc_file (setup_watcher st.new_watcher st.watch_dir).1 (rw (he, hs) at h) in
      (he, inr (socket, hs, l, w, rw (he, hs) e))

  Loads-quiet :
      {file : RcFile} (c : Config) → Loads file → (load_rc_file st.account.home file c).1 ≡ none
  unfolding load_rc_file
  Loads-quiet c loads_nothing = refl
  Loads-quiet c (loads_lines {lines}) = refl

  with_rc-quiet :
      (r : Config × Option Bytes) (watcher_error : Option Bytes)
      → r.1 ≡ none
      → watcher_error ≡ none
      → (with_rc watcher_error r).1 ≡ none
  unfolding init
  with_rc-quiet (c, none) watcher_error h e = e
  with_rc-quiet (c, some why) watcher_error h e = absurd (cc h)

  init-quiet : st.env_error ≡ none → GivesUp ⊎ Succeeds → (init st).1 ≡ none
  unfolding init with_socket
  init-quiet he (inl (missing, e)) = rw (he, missing) refl
  init-quiet he (inr (socket, found, l, quiet, e)) =
      rw (he, found) (with_rc-quiet _ _ (Loads-quiet (found_socket socket) l) quiet)

  -- `Init` returns no error exactly in two cases. Either the environment could be read, but the user
  -- or the home directory could not be found for the socket: then indexd.rc has not been read. Or
  -- all steps have succeeded: then the settings are those of the environment, with the socket and
  -- with the paths of indexd.rc. In the first case it returns none whatever the file and the watcher
  -- are.
  pub init_lem :
      ((init st).1 ≡ none ↔ (st.env_error ≡ none) × (GivesUp ⊎ Succeeds))
      × (st.env_error ≡ none
          → socket_of ≡ none
          → init st ≡ (record { static = st.static; additional_paths = [] }, none))
  unfolding init with_socket
  init_lem = (
    ((λ h. init_cases st.env_error socket_of refl refl h), λ (he, cases). init-quiet he cases),
    λ he missing. rw (he, missing) refl,
  )

  setup_watcher-watching :
      (new watch : Option Bytes)
      → (setup_watcher new watch).1 ≡ none
      → (setup_watcher new watch).0 ≡ true
  unfolding setup_watcher
  setup_watcher-watching none watch h = refl
  setup_watcher-watching (some why) watch h = absurd (cc h)

  -- Behind an `Init` that returns no error, `Run` starts a loop that panics exactly if `Init` has
  -- not found a socket.
  pub run_panics_iff : (init st).1 ≡ none → (run_panics st ≡ true) ↔ (socket_of ≡ none)
  unfolding run_panics has_watcher
  run_panics_iff h =
      let (env, cases) = init_lem.0.0 h in
      elim cases [
        | inl (missing, e) ↦ (λ p. missing, λ q. rw (env, missing, has_watcher) refl)
        | inr (socket, found, l, quiet, e) ↦ (
          λ p. absurd (
              cc (
                rw
                  (
                    env,
                    found,
                    has_watcher,
                    Loads-quiet (found_socket socket) l,
                    setup_watcher-watching st.new_watcher st.watch_dir quiet,
                  )
                  at p)),
          λ q. absurd (cc (found, q)),
        )
      ]

-- the watcher has not been closed
abbrev IsWatching : Watched → Type 0
IsWatching watch_closed = ⊥
IsWatching (changed name write create file) = Unit
IsWatching watch_error = Unit

static-load :
    (home : Option Bytes) (c : Config) (b : Bool) (file : RcFile)
    → (if b then (load_rc_file home file c).0 else c).static ≡ c.static
unfolding load_rc_file load_rc
static-load home c false file = refl
static-load home c true (unopened why) = refl
static-load home c true created = refl
static-load home c true (with_lines lines err) = refl

-- When indexd.rc has been written, the additional paths are those of its lines, whatever has been
-- reported before; nothing else of the settings changes.
pub watch_loop-changed :
    (home : Option Bytes) (rc_path : Bytes) (events : List Watched) (lines : List Bytes)
    (err : Option Bytes) (create : Bool) (c : Config)
    → All IsWatching events
    → watch_loop home rc_path (events ++ changed rc_path true create (with_lines lines err) ∷ []) c
      ≡ record { static = c.static; additional_paths = rc_paths home lines }
unfolding watch_loop load_rc_file load_rc
watch_loop-changed home rc_path [] lines err create c h =
    rw ((str_eq_iff rc_path rc_path).1 refl) refl
watch_loop-changed home rc_path (watch_error ∷ events) lines err create c (h, hs) =
    watch_loop-changed home rc_path events lines err create c hs
watch_loop-changed home rc_path (watch_closed ∷ events) lines err create c (h, hs) = elim h [ ]
watch_loop-changed home rc_path (changed name write new file ∷ events) lines err create c (h, hs) =
    let b = str_eq name rc_path && (write || new) in
    watch_loop-changed home rc_path events lines err create
      (if b then (load_rc_file home file c).0 else c) hs
    ∙ ap (λ env. record { static = env; additional_paths = rc_paths home lines })
        (static-load home c b file)
