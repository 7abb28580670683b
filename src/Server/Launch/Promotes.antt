-- ===== src/Server/Launch/Promotes.antt =====
-- What a run of a program (`handleRun`) does to the next list (`handleList`, server/server.go).
use mathlib.Core.List.{Permᴰ}
use ade_ctld.Common.{
  All, Bool, EachPair, List, [], ap, arith, if◌then◌else◌, inl, inr, refl, some, subst,
  uint64_modulus, ℕ, ℤ, ◌%◌, ◌+◌, ◌<◌, ◌∙◌, ◌∷◌, ◌≡◌, ◌≢◌, ◌≤◌,
}
use ade_ctld.Text.{Bytes, Unicode, not-str_eq, str_eq, str_eq_iff}
use ade_ctld.Parser.{Value}
use ade_ctld.Index.{Entry, get, values}
use ade_ctld.RunIndex.{Bolt, increment, updated}
use ade_ctld.RunIndex.Laws.{IsRunIndex, increment_lem, run_count}
use ade_ctld.Config.{Config, list_limit}
use ade_ctld.Server.State.{Host, Server, done, process}
use ade_ctld.Server.Filters.{filter_entries}
use ade_ctld.Server.Listing.{handle_list, list_page}
use ade_ctld.Server.Listing.Filtered.{IsFair}
use ade_ctld.Server.Listing.Response.{handle_list_lem}
use ade_ctld.Server.Launch.{command_line, handle_run, run_args, run_id, run_response}
use ade_ctld.Server.Launch.{count_run, after_start, run_entry, run_with}

All-weaken :
    {A : Type 0} (P Q : A → Type 0) → ((x : A) → P x → Q x) → (l : List A) → All P l → All Q l
All-weaken P Q f [] h = tt
All-weaken P Q f (x ∷ l) (hx, h) = (f x hx, All-weaken P Q f l h)

EachPair-weaken :
    {A : Type 0} (R S : A → A → Type 0)
    → ((x y : A) → R x y → S x y)
    → (l : List A) → EachPair R l
    → EachPair S l
EachPair-weaken R S f [] h = tt
EachPair-weaken R S f (x ∷ l) (hx, h) =
    (All-weaken (R x) (S x) (f x) l hx, EachPair-weaken R S f l h)

module _ (bolt : Bolt) (cfg : Config) (host : Host) (s : Server bolt.Db) (args : List Value) where
  -- a program of the entry has been started, and its run has been counted
  pub record IsCounted (id : ℤ) (force : Bool) (entry : Entry) (pid : ℕ) (db : bolt.Db)
      : Type 0 where
    pub asked : run_args args ≡ run_id id force
    pub present : get id s.index ≡ some entry
    pub launched : host.start (command_line cfg host.term force entry) ≡ process pid
    pub counted : increment bolt s.run_index entry.path ≡ updated db

  handle_run-counted :
      (id : ℤ) (force : Bool) (entry : Entry) (pid : ℕ) (db : bolt.Db)
      → IsCounted id force entry pid db
      → handle_run bolt cfg host s args ≡ done (record s { run_index = db }) (run_response id pid)
  unfolding handle_run
  handle_run-counted id force entry pid db r =
      ap (run_with bolt cfg host s) r.asked
      ∙ ap (run_entry bolt cfg host s id force) r.present
      ∙ ap (after_start bolt cfg s id entry) r.launched
      ∙ ap (count_run bolt cfg s (run_response id pid)) r.counted

  module _ (db : bolt.Db) (path other : Bytes) where
    abbrev Counts : Type 0
    Counts =
        (j : Bytes)
        → run_count bolt db j ≡ (
            if str_eq path j
            then (run_count bolt s.run_index path + 1) % uint64_modulus
            else run_count bolt s.run_index j)

    promoted :
        Counts
        → path ≢ other
        → run_count bolt s.run_index other ≤ run_count bolt s.run_index path
        → run_count bolt s.run_index path + 1 < uint64_modulus
        → run_count bolt db other < run_count bolt db path
    promoted counts different less fits =
        let mine : run_count bolt db path ≡ (run_count bolt s.run_index path + 1) % uint64_modulus =
          subst
            (λ b. run_count bolt db path ≡ (
              if b
              then (run_count bolt s.run_index path + 1) % uint64_modulus
              else run_count bolt s.run_index path))
            ((str_eq_iff path path).1 refl) (counts path) in
        let theirs : run_count bolt db other ≡ run_count bolt s.run_index other =
          subst
            (λ b. run_count bolt db other ≡ (
              if b
              then (run_count bolt s.run_index path + 1) % uint64_modulus
              else run_count bolt s.run_index other))
            (not-str_eq path other different) (counts other) in
        omega (arith, mine, theirs, less, fits)

  -- A program that has been run, where the run has been counted, stands in the next list in front of
  -- all that have another path and had not been run more often: `run` answers with the process, and
  -- `list` then shows the first page of a list of exactly the entries that pass the filters, in which
  -- no entry of such a path stands before one of the program's. The count does not wrap around, the
  -- run index is well-formed, and the runtime goes through the index in some order.
  pub handle_run-promotes :
      (u : Unicode) (cfg' : Config) (host' : Host) (id : ℤ) (force : Bool) (entry : Entry) (pid : ℕ)
      (db : bolt.Db) (other : Bytes)
      → IsRunIndex bolt s.run_index
      → IsFair host'
      → IsCounted id force entry pid db
      → entry.path ≢ other
      → run_count bolt s.run_index other ≤ run_count bolt s.run_index entry.path
      → run_count bolt s.run_index entry.path + 1 < uint64_modulus
      → (t : Server bolt.Db) × (l : List Entry) × (handle_run bolt cfg host s args
          ≡ done t (run_response id pid))
        × (handle_list bolt u cfg' host' t ≡ done t (list_page s.lang (list_limit cfg') l))
        × Permᴰ l (filter_entries u s.filters (values s.index.entries))
        × EachPair (λ x y. x.path ≡ other → y.path ≢ entry.path) l
  handle_run-promotes u cfg' host' id force entry pid db other v fair r different less fits =
      let (counts, runs) = increment_lem bolt s.run_index db entry.path v r.counted in
      let t = record s { run_index = db } in
      let (l, e, same, sorted) = handle_list_lem bolt u cfg' host' t fair runs in
      let more = promoted db entry.path other counts different less fits in
      (
        t,
        l,
        handle_run-counted id force entry pid db r,
        e,
        same,
        EachPair-weaken _ _
            (λ x y in_front ex ey.
              let xs = ap (run_count bolt db) ex in
              let ys = ap (run_count bolt db) ey in
              elim in_front [
                | inl h ↦ omega (arith, h, xs, ys, more)
                | inr h ↦ omega (arith, h.0, xs, ys, more)
              ])
            l sorted,
      )
