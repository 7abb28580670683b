-- ===== src/Tests/IndexingExamples.antt =====
-- Runs of the indexer, step by step.
use mathlib.Core.List.{Permᴰ}
use ade_ctld.Common.{nat_eq}
use ade_ctld.Common.{
  List, [], arith, false, inl, length, ltb→lt, refl, suc, true, zero, ℕ, ◌*◌, ◌+◌, ◌∷◌, ◌≡◌, ◌≤◌,
}
use ade_ctld.Index.{Entry, add, new_index}
use ade_ctld.Index.Laws.{IsIndex}
use ade_ctld.Indexer.{
  Event, desktop, entry_of_executable, executable, no_more_desktop, no_more_executables,
  run_indexing,
}
use ade_ctld.Indexer.Count.{contents, expected}
use ade_ctld.Indexer.Channels.{
  AllReturned, Run, World, beside, cancel, closes, desktop_scanner, ends, executable_scanner,
  finds_cancelled, finds_desktop_closed, finds_executables_closed, receives_desktop,
  receives_executable, round, sends, start_run, stay, takes,
}
use ade_ctld.Indexer.Channels.Merged.{Run_lem}
use ade_ctld.Indexer.Channels.Progress.{CanGo, Run-end, by_round, by_scanner, steps, steps-bound}
use ade_ctld.Indexer.Channels.Cancelled.{Run-cancel}
use ade_ctld.Indexer.Overlap.{
  Indexer, Steps, await_group, awaits, enter, enters, enters_behind, goroutine_returns, launch,
  launches, new_indexer, no_step, one_more_step, return_to, supersede, supersedes,
}
use ade_ctld.Indexer.Overlap.Mixed.{superseded-doubles}
use ade_ctld.Tests.DataExamples.{found_sh, found_editor}
use ade_ctld.Tests.Base.{machine}

abbrev one_each : World
one_each = start_run (found_sh ∷ []) (found_editor ∷ [])

abbrev all_events : List Event
all_events = executable found_sh ∷ no_more_executables ∷ desktop found_editor ∷ no_more_desktop ∷ []

abbrev returned_world : World
returned_world = record {
  execs = record { todo = []; buffer = []; closed = true; watched = false };
  desks = record { todo = []; buffer = []; closed = true; watched = false };
  receiving = false;
  is_cancelled = false;
  index = run_indexing machine.hidden all_events;
}

whole_run : Run machine.hidden one_each all_events returned_world
unfolding run_indexing
whole_run = beside (executable_scanner (sends refl refl (omega arith))) (
    round (receives_executable refl (takes refl refl)) (
      beside (executable_scanner (closes refl refl)) (
        round (finds_executables_closed refl (ends refl refl refl)) (
          beside (desktop_scanner (sends refl refl (omega arith))) (
            beside (desktop_scanner (closes refl refl)) (
              round (receives_desktop refl (takes refl refl))
                (round (finds_desktop_closed refl (ends refl refl refl)) stay)))))))

Run_lem_example :
    (returned_world.index ≡ run_indexing machine.hidden all_events)
    × IsIndex returned_world.index
    × Permᴰ
        (contents returned_world.index)
        (expected machine.hidden (found_sh ∷ []) (found_editor ∷ []))
Run_lem_example = Run_lem machine.hidden whole_run refl refl

nothing_more : ¬ CanGo machine.hidden returned_world
nothing_more (by_scanner (executable_scanner (sends unclosed more space)) live) =
    absurd (cc unclosed)
nothing_more (by_scanner (executable_scanner (closes unclosed nothing)) live) = absurd (cc unclosed)
nothing_more (by_scanner (desktop_scanner (sends unclosed more space)) live) = absurd (cc unclosed)
nothing_more (by_scanner (desktop_scanner (closes unclosed nothing)) live) = absurd (cc unclosed)
nothing_more (by_scanner (cancel first) live) = absurd (cc live)
nothing_more (by_round (receives_executable on t)) = absurd (cc on)
nothing_more (by_round (finds_executables_closed on t)) = absurd (cc on)
nothing_more (by_round (receives_desktop on t)) = absurd (cc on)
nothing_more (by_round (finds_desktop_closed on t)) = absurd (cc on)
nothing_more (by_round (finds_cancelled on c)) = absurd (cc on)

Run-end_example :
    AllReturned returned_world
    × IsIndex returned_world.index
    × Permᴰ
        (contents returned_world.index)
        (expected machine.hidden (found_sh ∷ []) (found_editor ∷ []))
Run-end_example = Run-end machine.hidden whole_run refl nothing_more

steps-bound_example :
    steps machine.hidden whole_run ≤ 2 * (length (found_sh ∷ []) + length (found_editor ∷ [])) + 6
steps-bound_example = steps-bound machine.hidden whole_run

abbrev copies : {A : Type 0} → ℕ → A → List A
copies zero x = []
copies (suc n) x = x ∷ copies n x

Run-cancel_example :
    (evs : List Event) × (w : World) × Run machine.hidden (start_run (copies 101 found_sh) []) evs w
    × ((v : World) (evs' : List Event) → Run machine.hidden w evs' v → ¬ AllReturned v)
Run-cancel_example = Run-cancel machine.hidden (copies 101 found_sh) [] (ltb→lt 100 101 refl)

abbrev shelf_entry : Entry
shelf_entry = entry_of_executable found_sh

-- A call, all of it but its end: its goroutines have returned, and its `Wait` has.
abbrev one_call : Indexer
one_call =
    await_group 0 (
      return_to 0 0 0
        (return_to 1 1 0 (return_to 2 2 0 (supersede (launch 0 (enter new_indexer))))))

-- the call that has superseded it
abbrev two_calls : Indexer
two_calls = launch 1 (enter one_call)

abbrev two_calls-Steps : Steps new_indexer two_calls
unfolding new_indexer
two_calls-Steps =
    one_more_step
      (one_more_step
        (one_more_step
          (one_more_step
            (one_more_step
              (one_more_step
                (one_more_step
                  (one_more_step (one_more_step no_step (enters refl refl)) (launches 0 refl))
                  (supersedes refl refl))
                (goroutine_returns 0 refl refl))
              (goroutine_returns 0 refl refl))
            (goroutine_returns 0 refl refl))
          (awaits 0 refl (inl refl) refl))
        (enters_behind refl (inl refl) refl))
      (launches 1 refl)

superseded-doubles_example :
    (v : Indexer) × Steps two_calls v
    × (v.owners ≡ two_calls.made ∷ 1 ∷ [])
    × (v.index ≡ (add shelf_entry (add shelf_entry new_index).0).0)
    × ((v.calls 1).is_cancelled ≡ false)
    × ((v.calls two_calls.made).is_cancelled ≡ false)
unfolding new_indexer
superseded-doubles_example =
    superseded-doubles two_calls 0 1 shelf_entry refl refl (λ e. absurd (omega (arith, e)))
      (omega arith) refl refl
