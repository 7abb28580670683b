-- ===== src/Server/Launch/Laws.antt =====
-- What `run` does on each of its paths.
use ade_ctld.Common.{
  Bool, List, Option, [], ap, arith, if◌then◌else◌, inl, inr, none, refl, some, uint64_modulus, ℕ,
  ℤ, ◌%◌, ◌+◌, ◌∙◌, ◌∷◌, ◌≡◌, ◌⊎◌,
}
use ade_ctld.Text.{Bytes, codes, str_eq}
use ade_ctld.Parser.{Value}
use ade_ctld.Index.{get, Entry}
use ade_ctld.RunIndex.{Bolt, increment, Updated, updated, failed, panicked}
use ade_ctld.RunIndex.Laws.{run_count, IsRunIndex, increment_lem, increment-ne-panicked}
use ade_ctld.Config.{Config}
use ade_ctld.Parser.Input.{IsOneLine}
use ade_ctld.Server.State.{Host, Outcome, Server, Started, done, process, start_error, write_error}
use ade_ctld.Server.Outcomes.{by_kind, by_test}
use ade_ctld.Server.Launch.{
  RunArgs, command_line, handle_run, missing_id, run_args, run_id, run_response,
}
use ade_ctld.Server.Launch.{id_behind_option, run_with, run_entry, after_start, count_run}

module _ (bolt : Bolt) (cfg : Config) (host : Host) (s : Server bolt.Db) (args : List Value) where
  abbrev outcome : Outcome bolt.Db
  outcome = handle_run bolt cfg host s args

  -- Without an identifier, with one that is not in the index, and when the program cannot be
  -- started, `run` answers with the error and leaves the state, the run counts included, as it is.
  pub handle_run-errors :
      ((why : Bytes)
        → run_args args ≡ missing_id why
        → outcome ≡ done s (write_error (codes "run") (codes "missing id") why))
      × ((id : ℤ) (force : Bool)
          → run_args args ≡ run_id id force
          → get id s.index ≡ none
          → outcome
            ≡ done s (
                write_error
                  (codes "run")
                  (codes "index not found")
                  (codes "Can't run application, requested index not found.")))
      × ((id : ℤ) (force : Bool) (entry : Entry) (why : Bytes)
          → run_args args ≡ run_id id force
          → get id s.index ≡ some entry
          → host.start (command_line cfg host.term force entry) ≡ start_error why
          → outcome ≡ done s (write_error (codes "run") (codes "execution failed") why))
  unfolding handle_run
  handle_run-errors = (
    (λ why asked. ap (run_with bolt cfg host s) asked),
    (λ id force asked missing.
        ap (run_with bolt cfg host s) asked ∙ ap (run_entry bolt cfg host s id force) missing),
    (λ id force entry why asked present failed_start.
        ap (run_with bolt cfg host s) asked
        ∙ ap (run_entry bolt cfg host s id force) present
        ∙ ap (after_start bolt cfg s id entry) failed_start),
  )

-- the reason, where there is one, is a line
abbrev pub IsCleanReason : RunArgs → Type 0
IsCleanReason (missing_id why) = IsOneLine why
IsCleanReason (run_id id force) = Unit

pub run_args-IsCleanReason : (args : List Value) → IsCleanReason (run_args args)
unfolding run_args id_behind_option
run_args-IsCleanReason [] = omega arith
run_args-IsCleanReason (first ∷ []) =
    by_kind IsCleanReason first.kind _ _ _
      (by_test IsCleanReason (str_eq first.str (codes "opt: terminal")) _ _ (λ e. omega arith)
        (omega arith))
      tt (omega arith)
run_args-IsCleanReason (first ∷ second ∷ args) =
    by_kind IsCleanReason first.kind _ _ _
      (by_test IsCleanReason (str_eq first.str (codes "opt: terminal")) _ _
        (λ e. by_kind IsCleanReason second.kind _ _ _ (omega arith) tt (omega arith)) (omega arith))
      tt (omega arith)

-- what `run` leaves alone
pub record OnlyRunIndex {Db : Type 0} (s t : Server Db) : Type 0 where
  pub same_index : t.index ≡ s.index
  pub same_filters : t.filters ≡ s.filters
  pub same_lang : t.lang ≡ s.lang

module _ (bolt : Bolt) (cfg : Config) (host : Host) (s : Server bolt.Db) (args : List Value) where
  -- the counts after a program of the entry has been started: one more for its path
  abbrev pub CountedOnce : Entry → bolt.Db → Type 0
  CountedOnce entry db =
      (j : Bytes)
      → run_count bolt db j ≡ (
          if str_eq entry.path j
          then (run_count bolt s.run_index entry.path + 1) % uint64_modulus
          else run_count bolt s.run_index j)

  -- What becomes of the counts: the update succeeds, and the new ones are kept, one more for the
  -- path; or the database refuses it, and they stay.
  abbrev pub Counts : Entry → bolt.Db → Type 0
  Counts entry db =
      ((increment bolt s.run_index entry.path ≡ updated db) × CountedOnce entry db)
      ⊎ ((why : Bytes) × (increment bolt s.run_index entry.path ≡ failed why) × (db ≡ s.run_index))

  count_run_lem :
      (entry : Entry) (response : Bytes) (r : Updated bolt.Db)
      → IsRunIndex bolt s.run_index
      → increment bolt s.run_index entry.path ≡ r
      → (t : Server bolt.Db) × (count_run bolt cfg s response r ≡ done t response)
        × OnlyRunIndex s t
        × IsRunIndex bolt t.run_index
        × Counts entry t.run_index
  unfolding count_run
  count_run_lem entry response (updated db) v e =
      let (counts, kept) = increment_lem bolt s.run_index db entry.path v e in
      (
        record s { run_index = db },
        refl,
        record { same_index = refl; same_filters = refl; same_lang = refl },
        kept,
        inl (e, counts),
      )
  count_run_lem entry response (failed why) v e = (
    s,
    refl,
    record { same_index = refl; same_filters = refl; same_lang = refl },
    v,
    inr (why, e, refl),
  )
  count_run_lem entry response panicked v e =
      absurd (increment-ne-panicked bolt s.run_index entry.path v e)

  -- When the program of the entry has been started, `run` answers with its process and adds one to
  -- the count of the entry's path, or, if the database refuses the update, changes no count; the
  -- index, the filters and the language stay as they are.
  pub handle_run-started :
      (id : ℤ) (force : Bool) (entry : Entry) (pid : ℕ)
      → IsRunIndex bolt s.run_index
      → run_args args ≡ run_id id force
      → get id s.index ≡ some entry
      → host.start (command_line cfg host.term force entry) ≡ process pid
      → (t : Server bolt.Db) × (handle_run bolt cfg host s args ≡ done t (run_response id pid))
        × OnlyRunIndex s t
        × IsRunIndex bolt t.run_index
        × Counts entry t.run_index
  unfolding handle_run
  handle_run-started id force entry pid v asked present started =
      let (t, e, same, kept, counts) =
        count_run_lem entry (run_response id pid) (increment bolt s.run_index entry.path) v refl in
      (
        t,
        ap (run_with bolt cfg host s) asked
            ∙ ap (run_entry bolt cfg host s id force) present
            ∙ ap (after_start bolt cfg s id entry) started
            ∙ e,
        same,
        kept,
        counts,
      )

module _ (bolt : Bolt) (cfg : Config) (host : Host) (s : Server bolt.Db) (args : List Value)
    (P : Outcome bolt.Db → Type 0) where
  -- what has to be shown where a program has been started
  abbrev pub IfStarted : Type 0
  IfStarted =
      (id : ℤ) (pid : ℕ) (t : Server bolt.Db)
      → OnlyRunIndex s t
      → IsRunIndex bolt t.run_index
      → P (done t (run_response id pid))

  -- what has to be shown where an error is reported
  abbrev pub IfNotStarted : Type 0
  IfNotStarted =
      ((why : Bytes)
        → run_args args ≡ missing_id why
        → P (done s (write_error (codes "run") (codes "missing id") why)))
      × P (
          done s (
            write_error (codes "run") (codes "index not found")
              (codes "Can't run application, requested index not found.")))
      × ((argv : List Bytes) (why : Bytes)
          → host.start argv ≡ start_error why
          → P (done s (write_error (codes "run") (codes "execution failed") why)))

  run_started_cases :
      IsRunIndex bolt s.run_index
      → IfNotStarted
      → IfStarted
      → (id : ℤ) (force : Bool) (entry : Entry) (r : Started) → run_args args ≡ run_id id force
      → get id s.index ≡ some entry
      → host.start (command_line cfg host.term force entry) ≡ r
      → P (handle_run bolt cfg host s args)
  run_started_cases v bad ok id force entry (process pid) asked present started =
      let (t, e, same, runs, _) =
        handle_run-started bolt cfg host s args id force entry pid v asked present started in
      rw e (ok id pid t same runs)
  run_started_cases v bad ok id force entry (start_error why) asked present started =
      rw ((handle_run-errors bolt cfg host s args).2 id force entry why asked present started)
        (bad.2 (command_line cfg host.term force entry) why started)

  run_entry_cases :
      IsRunIndex bolt s.run_index
      → IfNotStarted
      → IfStarted
      → (id : ℤ) (force : Bool) (o : Option Entry) → run_args args ≡ run_id id force
      → get id s.index ≡ o
      → P (handle_run bolt cfg host s args)
  run_entry_cases v bad ok id force none asked missing =
      rw ((handle_run-errors bolt cfg host s args).1 id force asked missing) bad.1
  run_entry_cases v bad ok id force (some entry) asked present =
      run_started_cases v bad ok id force entry _ asked present refl

  run_with_cases :
      IsRunIndex bolt s.run_index
      → IfNotStarted
      → IfStarted
      → (r : RunArgs) → run_args args ≡ r
      → P (handle_run bolt cfg host s args)
  run_with_cases v bad ok (missing_id why) asked =
      rw ((handle_run-errors bolt cfg host s args).0 why asked) (bad.0 why asked)
  run_with_cases v bad ok (run_id id force) asked =
      run_entry_cases v bad ok id force (get id s.index) asked refl

  pub handle_run_cases :
      IsRunIndex bolt s.run_index → IfNotStarted → IfStarted → P (handle_run bolt cfg host s args)
  handle_run_cases v bad ok = run_with_cases v bad ok (run_args args) refl
