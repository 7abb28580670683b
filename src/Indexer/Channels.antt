-- ===== src/Indexer/Channels.antt =====
-- The goroutines of `runIndexing` (internal/indexer/indexer.go), as steps that interleave: the two
-- scanners, which send into channels of 100 elements, and `processResults`, which selects.
pub mod Invariant
pub mod Merged
pub mod Progress
pub mod Cancelled
use ade_ctld.Common.{Bool, List, [], false, if◌then◌else◌, length, true, ℕ, ◌++◌, ◌<◌, ◌∷◌, ◌≡◌}
use ade_ctld.Text.{Bytes}
use ade_ctld.Index.{Index, add, new_index}
use ade_ctld.Desktop.{DesktopEntry}
use ade_ctld.Executable.{ExecutableInfo}
use ade_ctld.Indexer.{
  Event, cancelled, desktop, entry_of_desktop, entry_of_executable, executable, no_more_desktop,
  no_more_executables,
}

-- the second argument of `make(chan …)`
abbrev pub capacity : ℕ
capacity = 100

-- A channel with the scanner in front of it: what the scanner has still to send, what is in the
-- channel, whether it has been closed, and whether the variable of `processResults` is not nil.
pub record Channel (A : Type 0) : Type 0 where
  pub todo : List A
  pub buffer : List A
  pub closed : Bool
  pub watched : Bool

-- a new channel, with a scanner that will find `todo`
abbrev pub new_channel : {A : Type 0} → List A → Channel A
new_channel todo = record { todo = todo; buffer = []; closed = false; watched = true }

-- What a scanner does: it sends while there is room, and closes the channel when it returns.
pub data Scans {A : Type 0} : Channel A → Channel A → Type 0 where
  sends :
      {c : Channel A} {x : A} {xs : List A}
      → c.closed ≡ false
      → c.todo ≡ x ∷ xs
      → length c.buffer < capacity
      → Scans c (record c { todo = xs; buffer = c.buffer ++ x ∷ [] })
  closes : {c : Channel A} → c.closed ≡ false → c.todo ≡ [] → Scans c (record c { closed = true })

-- A case of the `select` that receives an element.
pub data Takes {A : Type 0} : Channel A → A → Channel A → Type 0 where
  takes :
      {c : Channel A} {x : A} {xs : List A}
      → c.watched ≡ true
      → c.buffer ≡ x ∷ xs
      → Takes c x (record c { buffer = xs })

-- The case that finds the channel closed and empty sets the variable to nil.
pub data Ends {A : Type 0} : Channel A → Channel A → Type 0 where
  ends :
      {c : Channel A}
      → c.watched ≡ true
      → c.closed ≡ true
      → c.buffer ≡ []
      → Ends c (record c { watched = false })

-- One run of the indexer; `receiving` says that `processResults` has not returned.
pub record World : Type 0 where
  pub execs : Channel ExecutableInfo
  pub desks : Channel DesktopEntry
  pub receiving : Bool
  pub is_cancelled : Bool
  pub index : Index

abbrev pub start_run : List ExecutableInfo → List DesktopEntry → World
start_run es ds = record {
  execs = new_channel es;
  desks = new_channel ds;
  receiving = true;
  is_cancelled = false;
  index = new_index;
}

-- what happens beside `processResults`
pub data Beside : World → World → Type 0 where
  executable_scanner :
      {w : World} {c : Channel ExecutableInfo} → Scans w.execs c → Beside w (record w { execs = c })
  desktop_scanner :
      {w : World} {c : Channel DesktopEntry} → Scans w.desks c → Beside w (record w { desks = c })
  cancel : {w : World} → w.is_cancelled ≡ false → Beside w (record w { is_cancelled = true })

-- A round of `processResults`, by the case of its `select`.
pub data Receives (hidden : Bytes → Bool) : World → Event → World → Type 0 where
  receives_executable :
      {w : World} {e : ExecutableInfo} {c : Channel ExecutableInfo}
      → w.receiving ≡ true
      → Takes w.execs e c
      → Receives hidden w
          (executable e)
          (record w { execs = c; index = (add (entry_of_executable e) w.index).0 })
  finds_executables_closed :
      {w : World} {c : Channel ExecutableInfo}
      → w.receiving ≡ true
      → Ends w.execs c
      → Receives hidden w no_more_executables (record w { execs = c; receiving = w.desks.watched })
  receives_desktop :
      {w : World} {d : DesktopEntry} {c : Channel DesktopEntry}
      → w.receiving ≡ true
      → Takes w.desks d c
      → Receives hidden w (desktop d) (record w {
        desks = c;
        index = if hidden d.path then w.index else (add (entry_of_desktop d) w.index).0;
      })
  finds_desktop_closed :
      {w : World} {c : Channel DesktopEntry}
      → w.receiving ≡ true
      → Ends w.desks c
      → Receives hidden w no_more_desktop (record w { desks = c; receiving = w.execs.watched })
  finds_cancelled :
      {w : World}
      → w.receiving ≡ true
      → w.is_cancelled ≡ true
      → Receives hidden w cancelled (record w { receiving = false })

-- Steps in any order, with what `processResults` has met.
pub data Run (hidden : Bytes → Bool) : World → List Event → World → Type 0 where
  stay : {w : World} → Run hidden w [] w
  beside : {w v t : World} {evs : List Event} → Beside w v → Run hidden v evs t → Run hidden w evs t
  round :
      {w v t : World} {ev : Event} {evs : List Event}
      → Receives hidden w ev v
      → Run hidden v evs t
      → Run hidden w (ev ∷ evs) t

-- `indexWg.Wait` returns: both scanners and `processResults` have returned.
pub record AllReturned (w : World) : Type 0 where
  pub execs_closed : w.execs.closed ≡ true
  pub desks_closed : w.desks.closed ≡ true
  pub not_receiving : w.receiving ≡ false
