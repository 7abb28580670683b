-- ===== src/Server/Answers/Clean.antt =====
-- The commands of server/server.go keep the texts of the server free of line feeds.
use ade_ctld.Common.{nat_eq}
use ade_ctld.Common.{
  All, Bool, Bool-cases, List, [], inl, inr, insert, subst, sym, true, ℕ, ◌==◌, ◌∷◌,
}
use ade_ctld.Text.{Bytes, Unicode}
use ade_ctld.Parser.{Command, Value}
use ade_ctld.Parser.Input.{IsOneLine}
use ade_ctld.Index.{Entry, Index, add, new_index, values}
use ade_ctld.RunIndex.{Bolt}
use ade_ctld.Config.{Config}
use ade_ctld.Indexer.{Event, indexing_paths, run_indexing}
use ade_ctld.Indexer.Count.{BringsFine, process_results-keeps}
use ade_ctld.Server.State.{Filters, Host, Outcome, Server, done, panic}
use ade_ctld.Server.Outcomes.{by_option, by_string}
use ade_ctld.Server.Listing.{handle_list, handle_list_next}
use ade_ctld.Server.Listing.Filtered.{IsFair}
use ade_ctld.Server.Listing.Response.{handle_list_lem}
use ade_ctld.Server.Listing.Next.{handle_list_next_cases}
use ade_ctld.Server.Listing.Lines.{HasCleanNames}
use ade_ctld.Server.Launch.{handle_run}
use ade_ctld.Server.Launch.Laws.{handle_run_cases}
use ade_ctld.Server.Settings.{expand_paths, handle_lang, handle_reindex, string_args}
use ade_ctld.Server.Dispatch.{execute_command}
use ade_ctld.Server.Dispatch.Step.{IsServer}
use ade_ctld.Server.Dispatch.Cases.{execute_command_cases}
use ade_ctld.Server.Answers.Commands.{IsClean, IsCleanCommand, IsCleanHost}

abbrev pub HasCleanEntries : Index → Type 0
HasCleanEntries idx = All HasCleanNames (values idx.entries)

insert-HasCleanNames :
    (id : ℕ) (e : Entry) (m : List (ℕ × Entry))
    → HasCleanNames e
    → All HasCleanNames (values m)
    → All HasCleanNames (values (insert id e m))
unfolding values insert
insert-HasCleanNames id e [] h hs = (h, tt)
insert-HasCleanNames id e ((k, d) ∷ m) h (hd, hs) = elim (Bool-cases (k == id)) [
  | inl same ↦ rw same (h, hs)
  | inr other ↦ rw other (hd, insert-HasCleanNames id e m h hs)
]

pub add-HasCleanEntries :
    (e : Entry) (idx : Index)
    → HasCleanNames e
    → HasCleanEntries idx
    → HasCleanEntries (add e idx).0
unfolding add
add-HasCleanEntries e idx h v =
    insert-HasCleanNames idx.next_id (record e { id = idx.next_id }) idx.entries
      (record { clean_name = h.clean_name; clean_names = h.clean_names }) v

pub run_indexing-HasCleanEntries :
    (hidden : Bytes → Bool) (evs : List Event)
    → All (BringsFine HasCleanNames) evs
    → HasCleanEntries (run_indexing hidden evs)
unfolding run_indexing values
run_indexing-HasCleanEntries hidden evs fine =
    process_results-keeps hidden HasCleanEntries HasCleanNames add-HasCleanEntries true true evs
      new_index fine tt

-- the state behind a command, if there is one, is clean
pub data StaysClean {Db : Type 0} : Outcome Db → Type 0 where
  stays_clean : {t : Server Db} {response : Bytes} → IsClean t → StaysClean (done t response)
  no_state : StaysClean panic

module _ (bolt : Bolt) (u : Unicode) (cfg : Config) (host : Host) (s : Server bolt.Db)
    (cmd : Command) (v : IsServer bolt s) (clean : IsClean s) (fair : IsFair host)
    (clean_host : IsCleanHost host) (clean_cmd : IsCleanCommand cmd) where
  abbrev Clean : Outcome bolt.Db → Type 0
  Clean o = StaysClean o

  refiltered : (filters : Filters) → IsClean (record s { filters = filters })
  refiltered filters = record { clean_lang = clean.clean_lang; clean_entries = clean.clean_entries }

  handle_list-Clean : Clean (handle_list bolt u cfg host s)
  handle_list-Clean =
      let (l, e, _, _) = handle_list_lem bolt u cfg host s fair v.runs in rw e (stays_clean clean)

  handle_list_next-Clean : Clean (handle_list_next bolt u cfg host s cmd.args)
  handle_list_next-Clean =
      handle_list_next_cases bolt u cfg host s Clean cmd.args (stays_clean clean, stays_clean clean)
        ((λ offset response e. stays_clean clean), λ offset e. no_state)

  handle_run-Clean : Clean (handle_run bolt cfg host s cmd.args)
  handle_run-Clean =
      handle_run_cases bolt cfg host s cmd.args Clean v.runs
        ((λ why e. stays_clean clean), stays_clean clean, λ argv why e. stays_clean clean)
        (λ id pid t same runs. stays_clean (record {
          clean_lang = subst IsOneLine (sym same.same_lang) clean.clean_lang;
          clean_entries = subst HasCleanEntries (sym same.same_index) clean.clean_entries;
        }))

  handle_lang-Clean :
      (args : List Value) → All (λ (a : Value). IsOneLine a.str) args → Clean (handle_lang s args)
  unfolding handle_lang
  handle_lang-Clean [] h = stays_clean clean
  handle_lang-Clean (arg ∷ args) (h, hs) =
      by_string Clean arg.kind _ _
        (λ e. stays_clean (record { clean_lang = h; clean_entries = clean.clean_entries }))
        (stays_clean clean)

  handle_reindex-Clean : (args : List Value) → Clean (handle_reindex cfg host s args)
  unfolding handle_reindex
  handle_reindex-Clean args = by_option Clean (string_args args) _ _ (stays_clean clean) (λ paths e.
      stays_clean (record {
        clean_lang = clean.clean_lang;
        clean_entries =
            run_indexing-HasCleanEntries host.hidden
              (host.scan (indexing_paths cfg (expand_paths host paths))) (clean_host.clean_scan _);
      }))

  pub execute_command-StaysClean : StaysClean (execute_command bolt u cfg host s cmd)
  execute_command-StaysClean =
      execute_command_cases bolt u cfg host s cmd Clean
        (λ filters name one. stays_clean (refiltered filters)) handle_list-Clean
        (λ named. handle_list_next-Clean) handle_run-Clean
        (handle_lang-Clean cmd.args clean_cmd.clean_args) (handle_reindex-Clean cmd.args)
        (stays_clean clean)
