-- ===== src/Indexer/Channels/Cancelled.antt =====
-- What a cancellation does to the scanners of an indexing run (internal/indexer/indexer.go).
use ade_ctld.Common.{
  Bool, List, [], arith, false, length, length-append, refl, suc, true, zero, ℕ, ◌++◌, ◌+◌, ◌<◌,
  ◌∷◌, ◌≡◌, ◌≢◌, ◌≤◌,
}
use ade_ctld.Text.{Bytes}
use ade_ctld.Desktop.{DesktopEntry}
use ade_ctld.Executable.{ExecutableInfo}
use ade_ctld.Indexer.{Event, cancelled}
use ade_ctld.Indexer.Channels.{
  AllReturned, Channel, Run, Scans, World, beside, cancel, capacity, closes, desktop_scanner,
  executable_scanner, finds_cancelled, finds_desktop_closed, finds_executables_closed,
  receives_desktop, receives_executable, round, sends, start_run, stay,
}

-- The scanner of a full channel waits for room.
pub record IsJammed {A : Type 0} (c : Channel A) : Type 0 where
  pub full : capacity ≤ length c.buffer
  pub more : c.todo ≢ []
  pub unclosed : c.closed ≡ false

-- Nobody will make room.
pub record IsStuck (w : World) : Type 0 where
  pub jammed : IsJammed w.execs
  pub returned : w.receiving ≡ false

Scans-IsJammed : {A : Type 0} {c d : Channel A} → Scans c d → ¬ IsJammed c
Scans-IsJammed (sends unclosed more space) j = absurd (let f = j.full in omega arith)
Scans-IsJammed (closes unclosed nothing) j = j.more nothing

module _ (hidden : Bytes → Bool) where
  Run-IsStuck : {w v : World} {evs : List Event} → Run hidden w evs v → IsStuck w → IsStuck v
  Run-IsStuck stay k = k
  Run-IsStuck (beside (executable_scanner s) r) k = absurd (Scans-IsJammed s k.jammed)
  Run-IsStuck (beside (desktop_scanner s) r) k =
      Run-IsStuck r (record { jammed = k.jammed; returned = k.returned })
  Run-IsStuck (beside (cancel live) r) k =
      Run-IsStuck r (record { jammed = k.jammed; returned = k.returned })
  Run-IsStuck (round (receives_executable on t) r) k = absurd (cc (on, k.returned))
  Run-IsStuck (round (finds_executables_closed on t) r) k = absurd (cc (on, k.returned))
  Run-IsStuck (round (receives_desktop on t) r) k = absurd (cc (on, k.returned))
  Run-IsStuck (round (finds_desktop_closed on t) r) k = absurd (cc (on, k.returned))
  Run-IsStuck (round (finds_cancelled on c) r) k = absurd (cc (on, k.returned))

  abbrev Stops : World → Type 0
  Stops w = (evs : List Event) × (v : World) × Run hidden w evs v × IsStuck v

  -- The scanner fills the channel, then the run is cancelled, and `processResults` returns.
  jam :
      (n : ℕ) (w : World) (todo : List ExecutableInfo)
      → w.execs.todo ≡ todo
      → length w.execs.buffer + n ≡ capacity
      → n < length todo
      → w.execs.closed ≡ false
      → w.receiving ≡ true
      → w.is_cancelled ≡ false
      → Stops w
  jam n w [] e room more unclosed on live = absurd (omega arith)
  jam zero w (x ∷ xs) e room more unclosed on live = (
    cancelled ∷ [],
    record w { is_cancelled = true; receiving = false },
    beside (cancel live) (round (finds_cancelled on refl) stay),
    record {
      jammed = record { full = omega arith; more = λ h. absurd (cc (e, h)); unclosed = unclosed };
      returned = refl;
    },
  )
  jam (suc n) w (x ∷ xs) e room more unclosed on live =
      let c : Channel ExecutableInfo = record w.execs {
        todo = xs;
        buffer = w.execs.buffer ++ x ∷ [];
      } in
      let (evs, v, r, k) =
        jam n (record w { execs = c }) xs refl
          (omega (arith, length-append w.execs.buffer (x ∷ []), room)) (omega arith) unclosed on
          live in
      (evs, v, beside (executable_scanner (sends unclosed e (omega arith))) r, k)

  -- With more executables than a channel holds, an indexing run can be cancelled at a time from
  -- which on its goroutines never all return, whatever they do.
  pub Run-cancel :
      (es : List ExecutableInfo) (ds : List DesktopEntry)
      → capacity < length es
      → (evs : List Event) × (w : World) × Run hidden (start_run es ds) evs w
        × ((v : World) (evs' : List Event) → Run hidden w evs' v → ¬ AllReturned v)
  Run-cancel es ds many =
      let (evs, w, r, k) =
        jam capacity (start_run es ds) es refl (omega arith) many refl refl refl in
      (evs, w, r, λ v evs' s h. absurd (cc ((Run-IsStuck s k).jammed.unclosed, h.execs_closed)))
