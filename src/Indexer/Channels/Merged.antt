-- ===== src/Indexer/Channels/Merged.antt =====
-- What an indexing run of interleaved goroutines (internal/indexer/indexer.go) receives.
use mathlib.Core.List.{Permᴰ}
use ade_ctld.Common.{
  Bool, List, [], false, if◌then◌else◌, refl, subst, sym, true, ◌||◌, ◌∙◌, ◌∷◌, ◌≡◌,
}
use ade_ctld.Text.{Bytes}
use ade_ctld.Index.{Index, add}
use ade_ctld.Index.Laws.{IsIndex}
use ade_ctld.Desktop.{DesktopEntry}
use ade_ctld.Executable.{ExecutableInfo}
use ade_ctld.Indexer.{
  Event, desktop, entry_of_desktop, entry_of_executable, executable, no_more_desktop,
  no_more_executables, process_results, run_indexing,
}
use ade_ctld.Indexer.Count.{
  Merge, both_closed, close_desktop, close_executables, contents, expected, next_desktop,
  next_executable, run_indexing_lem,
}
use ade_ctld.Indexer.Channels.{
  Beside, Receives, Run, World, beside, cancel, desktop_scanner, ends, executable_scanner,
  finds_cancelled, finds_desktop_closed, finds_executables_closed, receives_desktop,
  receives_executable, round, start_run, stay, takes,
}
use ade_ctld.Indexer.Channels.Invariant.{
  Beside-IsWorld, IsWorld, Receives-IsWorld, Scans-pending, Scans-watched, pending,
  start_run-IsWorld, unwatched-pending,
}

Beside-cancelled : {w v : World} → Beside w v → v.is_cancelled ≡ false → w.is_cancelled ≡ false
Beside-cancelled (executable_scanner s) e = e
Beside-cancelled (desktop_scanner s) e = e
Beside-cancelled (cancel live) e = absurd (cc e)

module _ (hidden : Bytes → Bool) where
  Receives-cancelled :
      {w v : World} {ev : Event} → Receives hidden w ev v → v.is_cancelled ≡ w.is_cancelled
  Receives-cancelled (receives_executable on t) = refl
  Receives-cancelled (finds_executables_closed on t) = refl
  Receives-cancelled (receives_desktop on t) = refl
  Receives-cancelled (finds_desktop_closed on t) = refl
  Receives-cancelled (finds_cancelled on c) = refl

  -- Nothing takes a cancellation back.
  pub Run-cancelled :
      {w t : World} {evs : List Event}
      → Run hidden w evs t
      → t.is_cancelled ≡ false
      → w.is_cancelled ≡ false
  Run-cancelled stay e = e
  Run-cancelled (beside b r) e = Beside-cancelled b (Run-cancelled r e)
  Run-cancelled (round h r) e = sym (Receives-cancelled h) ∙ Run-cancelled r e

  -- The events are those of the scanners, and `result` is what they make of the index.
  abbrev Meets :
      Bool → Bool → List ExecutableInfo → List DesktopEntry → List Event → Index → Index → Type 0
  Meets x y es ds evs idx result =
      Merge x y es ds evs × (result ≡ process_results hidden x y evs idx)

  Meets-executable :
      {y : Bool} (e : ExecutableInfo) {es : List ExecutableInfo} {ds : List DesktopEntry}
      {evs : List Event} (idx : Index) {result : Index}
      → Meets true y es ds evs (add (entry_of_executable e) idx).0 result
      → Meets true y (e ∷ es) ds (executable e ∷ evs) idx result
  unfolding process_results
  Meets-executable e idx (m, q) = (next_executable m, q)

  Meets-desktop :
      {x : Bool} (d : DesktopEntry) {es : List ExecutableInfo} {ds : List DesktopEntry}
      {evs : List Event} (idx : Index) {result : Index}
      → Meets x true es ds evs
          (if hidden d.path then idx else (add (entry_of_desktop d) idx).0)
          result
      → Meets x true es (d ∷ ds) (desktop d ∷ evs) idx result
  unfolding process_results
  Meets-desktop d idx (m, q) = (next_desktop m, q)

  -- `processResults` has returned in front of the events
  abbrev Halts : Bool → List Event → Index → Index → Type 0
  Halts b evs idx result = b ≡ false → (evs ≡ []) × (result ≡ idx)

  Meets-executables_closed :
      (y : Bool) {ds : List DesktopEntry} {evs : List Event} {idx result : Index}
      → Halts y evs idx result
      → Meets false y [] ds evs idx result
      → Meets true y [] ds (no_more_executables ∷ evs) idx result
  unfolding process_results
  Meets-executables_closed true halt (m, q) = (close_executables m, q)
  Meets-executables_closed false halt (m, q) = (close_executables m, (halt refl).1)

  Meets-desktop_closed :
      (x : Bool) {es : List ExecutableInfo} {evs : List Event} {idx result : Index}
      → Halts x evs idx result
      → Meets x false es [] evs idx result
      → Meets x true es [] (no_more_desktop ∷ evs) idx result
  unfolding process_results
  Meets-desktop_closed true halt (m, q) = (close_desktop m, q)
  Meets-desktop_closed false halt (m, q) = (close_desktop m, (halt refl).1)

  Meets-nothing :
      {x y : Bool} {es : List ExecutableInfo} {ds : List DesktopEntry} (idx : Index)
      → x ≡ false
      → y ≡ false
      → es ≡ []
      → ds ≡ []
      → Meets x y es ds [] idx idx
  unfolding process_results
  Meets-nothing idx hx hy he hd = rw (hx, hy, he, hd) (both_closed, refl)

  Receives-receiving : {w v : World} {ev : Event} → Receives hidden w ev v → w.receiving ≡ true
  Receives-receiving (receives_executable on t) = on
  Receives-receiving (finds_executables_closed on t) = on
  Receives-receiving (receives_desktop on t) = on
  Receives-receiving (finds_desktop_closed on t) = on
  Receives-receiving (finds_cancelled on c) = on

  -- A `processResults` that has returned meets nothing any more.
  Run-Halts :
      {w t : World} {evs : List Event} → Run hidden w evs t → Halts w.receiving evs w.index t.index
  Run-Halts stay off = (refl, refl)
  Run-Halts (beside (executable_scanner s) r) off = Run-Halts r off
  Run-Halts (beside (desktop_scanner s) r) off = Run-Halts r off
  Run-Halts (beside (cancel first) r) off = Run-Halts r off
  Run-Halts (round h r) off = absurd (cc (Receives-receiving h, off))

  -- what is pending is met
  abbrev Received : World → List Event → Index → Type 0
  Received w evs result =
      Meets w.execs.watched w.desks.watched (pending w.execs) (pending w.desks) evs w.index result

  Received-round :
      {w v : World} {ev : Event} {evs : List Event} {result : Index}
      → IsWorld w
      → w.is_cancelled ≡ false
      → Receives hidden w ev v
      → Halts v.receiving evs v.index result
      → Received v evs result
      → Received w (ev ∷ evs) result
  Received-round i live (receives_executable {w} on (takes {x} watched full)) halt h =
      rw (watched, full) (Meets-executable x w.index (rw watched at h))
  Received-round {w} i live (finds_executables_closed on (ends watched closed empty)) halt h =
      let nothing = i.execs_fine.nothing_left closed in
      rw (watched, empty, nothing)
        (Meets-executables_closed w.desks.watched halt (rw (empty, nothing) at h))
  Received-round i live (receives_desktop {w} on (takes {x} watched full)) halt h =
      rw (watched, full) (Meets-desktop x w.index (rw watched at h))
  Received-round {w} i live (finds_desktop_closed on (ends watched closed empty)) halt h =
      let nothing = i.desks_fine.nothing_left closed in
      rw (watched, empty, nothing)
        (Meets-desktop_closed w.execs.watched halt (rw (empty, nothing) at h))
  Received-round i live (finds_cancelled on c) halt h = absurd (cc (c, live))

  neither : (x y : Bool) → x || y ≡ false → (x ≡ false) × (y ≡ false)
  neither false y e = (refl, e)
  neither true y e = absurd (cc e)

  Run-Received :
      {w t : World} {evs : List Event}
      → Run hidden w evs t
      → IsWorld w
      → t.is_cancelled ≡ false
      → t.receiving ≡ false
      → Received w evs t.index
  Run-Received (stay {w}) i live off =
      let (x, y) = neither w.execs.watched w.desks.watched (sym (i.receives live) ∙ off) in
      Meets-nothing w.index x y (unwatched-pending i.execs_fine x)
        (unwatched-pending i.desks_fine y)
  Run-Received (beside (executable_scanner {w} s) r) i live off =
      rw (← Scans-watched s, ← Scans-pending s)
        (Run-Received r (Beside-IsWorld (executable_scanner s) i) live off)
  Run-Received (beside (desktop_scanner {w} s) r) i live off =
      rw (← Scans-watched s, ← Scans-pending s)
        (Run-Received r (Beside-IsWorld (desktop_scanner s) i) live off)
  Run-Received (beside (cancel first) r) i live off = absurd (cc (Run-cancelled r live))
  Run-Received (round h r) i live off =
      Received-round i (Run-cancelled (round h r) live) h (Run-Halts r)
        (Run-Received r (Receives-IsWorld hidden h i) live off)

  -- However the scanners, the channels and `processResults` interleave: when `processResults` has
  -- returned in a run that has not been cancelled, it has met each element of both scanners, and
  -- the index is well-formed and holds exactly one entry for each executable and for each desktop
  -- file that is displayed.
  pub Run_lem :
      {es : List ExecutableInfo} {ds : List DesktopEntry} {evs : List Event} {t : World}
      → Run hidden (start_run es ds) evs t
      → t.is_cancelled ≡ false
      → t.receiving ≡ false
      → (t.index ≡ run_indexing hidden evs)
        × IsIndex t.index
        × Permᴰ (contents t.index) (expected hidden es ds)
  unfolding run_indexing
  Run_lem {es} {ds} r live off =
      let (m, q) = Run-Received r (start_run-IsWorld es ds) live off in
      let (v, p, _) = run_indexing_lem hidden m in
      (
        q,
        subst IsIndex (sym q) v,
        subst (λ idx. Permᴰ (contents idx) (expected hidden es ds)) (sym q) p,
      )
