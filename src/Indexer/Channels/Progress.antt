-- ===== src/Indexer/Channels/Progress.antt =====
-- Indexing runs (internal/indexer/indexer.go) come to an end.
use mathlib.Core.List.{Permᴰ}
use ade_ctld.Common.{
  Bool, List, [], all, ap, arith, false, if◌then◌else◌, inl, inr, length, length-append, not, refl,
  suc, true, ℕ, ◌*◌, ◌+◌, ◌||◌, ◌∙◌, ◌∷◌, ◌≡◌, ◌≤◌, ◌⊎◌,
}
use ade_ctld.Text.{Bytes}
use ade_ctld.Desktop.{DesktopEntry}
use ade_ctld.Executable.{ExecutableInfo}
use ade_ctld.Indexer.{Event}
use ade_ctld.Index.Laws.{IsIndex}
use ade_ctld.Indexer.Count.{contents, expected}
use ade_ctld.Indexer.Channels.{
  AllReturned, Beside, Channel, Ends, Receives, Run, Scans, Takes, World, beside, cancel, closes,
  desktop_scanner, ends, executable_scanner, finds_cancelled, finds_desktop_closed,
  finds_executables_closed, receives_desktop, receives_executable, round, sends, start_run, stay,
  takes,
}
use ade_ctld.Indexer.Channels.Invariant.{
  Beside-IsWorld, IsWorld, Receives-IsWorld, start_run-IsWorld,
}
use ade_ctld.Indexer.Channels.Merged.{Run_lem}

-- what can happen at a channel that is looked at
data Goes {A : Type 0} (c : Channel A) : Type 0 where
  goes_takes : {x : A} {d : Channel A} → Takes c x d → Goes c
  goes_ends : {d : Channel A} → Ends c d → Goes c
  goes_scans : {d : Channel A} → Scans c d → Goes c

module _ {A : Type 0} (c : Channel A) where
  Goes-parts :
      (buffer todo : List A) (closed : Bool)
      → c.buffer ≡ buffer
      → c.todo ≡ todo
      → c.closed ≡ closed
      → c.watched ≡ true
      → Goes c
  Goes-parts (x ∷ xs) todo closed hb ht hc watched = goes_takes (takes watched hb)
  Goes-parts [] todo true hb ht hc watched = goes_ends (ends watched hc hb)
  Goes-parts [] [] false hb ht hc watched = goes_scans (closes hc ht)
  Goes-parts [] (x ∷ xs) false hb ht hc watched = goes_scans (sends hc ht (rw hb (omega arith)))

  goes : c.watched ≡ true → Goes c
  goes = Goes-parts c.buffer c.todo c.closed refl refl refl

abbrev one_if : Bool → ℕ
one_if b = if b then 1 else 0

one_if_small : (b : Bool) → one_if b ≤ 1
one_if_small true = omega arith
one_if_small false = omega arith

-- the steps that are left at most
abbrev channel_work : {A : Type 0} → Channel A → ℕ
channel_work c = 2 * length c.todo + length c.buffer + one_if (not c.closed) + one_if c.watched

abbrev work : World → ℕ
work w =
    channel_work w.execs + channel_work w.desks + one_if w.receiving + one_if (not w.is_cancelled)

Scans-work : {A : Type 0} {c d : Channel A} → Scans c d → channel_work d + 1 ≤ channel_work c
Scans-work (sends {c} {x} {xs} unclosed more space) =
    rw more (omega (arith, length-append c.buffer (x ∷ [])))
Scans-work (closes unclosed nothing) = rw unclosed (omega arith)

module _ (hidden : Bytes → Bool) where
  -- A goroutine can take a step, and nobody cancels.
  pub data CanGo (w : World) : Type 0 where
    by_scanner : {v : World} → Beside w v → v.is_cancelled ≡ false → CanGo w
    by_round : {v : World} {ev : Event} → Receives hidden w ev v → CanGo w

  CanGo-execs : {w : World} → w.is_cancelled ≡ false → w.receiving ≡ true → Goes w.execs → CanGo w
  CanGo-execs live on (goes_takes t) = by_round (receives_executable on t)
  CanGo-execs live on (goes_ends t) = by_round (finds_executables_closed on t)
  CanGo-execs live on (goes_scans s) = by_scanner (executable_scanner s) live

  CanGo-desks : {w : World} → w.is_cancelled ≡ false → w.receiving ≡ true → Goes w.desks → CanGo w
  CanGo-desks live on (goes_takes t) = by_round (receives_desktop on t)
  CanGo-desks live on (goes_ends t) = by_round (finds_desktop_closed on t)
  CanGo-desks live on (goes_scans s) = by_scanner (desktop_scanner s) live

  go_on :
      (w : World) (x y : Bool)
      → IsWorld w
      → w.is_cancelled ≡ false
      → w.execs.watched ≡ x
      → w.desks.watched ≡ y
      → AllReturned w ⊎ CanGo w
  go_on w true y i live hx hy =
      inr (CanGo-execs live (i.receives live ∙ ap (λ b. b || w.desks.watched) hx) (goes w.execs hx))
  go_on w false true i live hx hy =
      inr (CanGo-desks live (rw (i.receives live, hx, hy) refl) (goes w.desks hy))
  go_on w false false i live hx hy = inl (record {
    execs_closed = (i.execs_fine.drained hx).0;
    desks_closed = (i.desks_fine.drained hy).0;
    not_receiving = rw (i.receives live, hx, hy) refl;
  })

  Run-IsWorld : {w t : World} {evs : List Event} → Run hidden w evs t → IsWorld w → IsWorld t
  Run-IsWorld stay i = i
  Run-IsWorld (beside b r) i = Run-IsWorld r (Beside-IsWorld b i)
  Run-IsWorld (round h r) i = Run-IsWorld r (Receives-IsWorld hidden h i)

  -- An indexing run that is not cancelled does not get stuck: at any time either all goroutines
  -- have returned, or one of them can take a step.
  pub Run-CanGo :
      {es : List ExecutableInfo} {ds : List DesktopEntry} {evs : List Event} {t : World}
      → Run hidden (start_run es ds) evs t
      → t.is_cancelled ≡ false
      → AllReturned t ⊎ CanGo t
  Run-CanGo {es} {ds} {t} r live =
      go_on t t.execs.watched t.desks.watched (Run-IsWorld r (start_run-IsWorld es ds)) live refl
        refl

  finished : {t : World} → ¬ CanGo t → AllReturned t ⊎ CanGo t → AllReturned t
  finished stuck (inl all) = all
  finished stuck (inr more) = absurd (stuck more)

  -- When no goroutine of an indexing run that is not cancelled can take a step any more, all of
  -- them have returned, and the index is well-formed and holds exactly one entry for each
  -- executable and for each desktop file that is displayed, however they have interleaved.
  pub Run-end :
      {es : List ExecutableInfo} {ds : List DesktopEntry} {evs : List Event} {t : World}
      → Run hidden (start_run es ds) evs t
      → t.is_cancelled ≡ false
      → ¬ CanGo t
      → AllReturned t × IsIndex t.index × Permᴰ (contents t.index) (expected hidden es ds)
  Run-end r live stuck =
      let end_ = finished stuck (Run-CanGo r live) in
      let (_, v, p) = Run_lem hidden r live end_.not_receiving in (end_, v, p)

  Beside-work : {w v : World} → Beside w v → work v + 1 ≤ work w
  Beside-work (executable_scanner s) = omega (arith, Scans-work s)
  Beside-work (desktop_scanner s) = omega (arith, Scans-work s)
  Beside-work (cancel live) = rw live (omega arith)

  Receives-work : {w v : World} {ev : Event} → Receives hidden w ev v → work v + 1 ≤ work w
  Receives-work (receives_executable on (takes watched full)) = rw full (omega arith)
  Receives-work (finds_executables_closed {w} on (ends watched closed empty)) =
      rw (on, watched) (omega (arith, one_if_small w.desks.watched))
  Receives-work (receives_desktop on (takes watched full)) = rw full (omega arith)
  Receives-work (finds_desktop_closed {w} on (ends watched closed empty)) =
      rw (on, watched) (omega (arith, one_if_small w.execs.watched))
  Receives-work (finds_cancelled on c) = rw on (omega arith)

  pub steps : {w t : World} {evs : List Event} → Run hidden w evs t → ℕ
  steps stay = 0
  steps (beside b r) = suc (steps r)
  steps (round h r) = suc (steps r)

  Run-work : {w t : World} {evs : List Event} (r : Run hidden w evs t) → steps r + work t ≤ work w
  unfolding steps
  Run-work stay = omega arith
  Run-work (beside b r) = omega (arith, Run-work r, Beside-work b)
  Run-work (round h r) = omega (arith, Run-work r, Receives-work h)

  -- An indexing run ends, cancelled or not: it takes at most two steps for each element of the
  -- scanners and six more.
  pub steps-bound :
      {es : List ExecutableInfo} {ds : List DesktopEntry} {evs : List Event} {t : World}
      (r : Run hidden (start_run es ds) evs t)
      → steps r ≤ 2 * (length es + length ds) + 6
  steps-bound r = omega (arith, Run-work r)
