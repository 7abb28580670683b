-- ===== src/Indexer/Channels/Invariant.antt =====
-- What holds of the channels of an indexing run at any time.
use ade_ctld.Common.{
  Bool, List, [], ap, append_assoc, arith, false, length, length-append, refl, sym, true, ◌++◌,
  ◌||◌, ◌∙◌, ◌∷◌, ◌≡◌, ◌≤◌,
}
use ade_ctld.Text.{Bytes}
use ade_ctld.Desktop.{DesktopEntry}
use ade_ctld.Executable.{ExecutableInfo}
use ade_ctld.Indexer.{Event}
use ade_ctld.Indexer.Channels.{
  Beside, Channel, Ends, Receives, Scans, Takes, World, cancel, capacity, closes, desktop_scanner,
  ends, executable_scanner, finds_cancelled, finds_desktop_closed, finds_executables_closed,
  new_channel, receives_desktop, receives_executable, sends, start_run, takes,
}

pub record IsChannel {A : Type 0} (c : Channel A) : Type 0 where
  pub nothing_left : c.closed ≡ true → c.todo ≡ []
  pub drained : c.watched ≡ false → (c.closed ≡ true) × (c.buffer ≡ [])
  pub room : length c.buffer ≤ capacity

-- what has not been received
abbrev pub pending : {A : Type 0} → Channel A → List A
pending c = c.buffer ++ c.todo

module _ {A : Type 0} where
  pub new_channel-IsChannel : (todo : List A) → IsChannel (new_channel todo)
  new_channel-IsChannel todo = record {
    nothing_left = λ e. absurd (cc e);
    drained = λ e. absurd (cc e);
    room = omega arith;
  }

  pub Scans-IsChannel : {c d : Channel A} → Scans c d → IsChannel c → IsChannel d
  Scans-IsChannel (sends {c} {x} unclosed more space) i = record {
    nothing_left = λ e. absurd (cc (unclosed, e));
    drained = λ e. absurd (cc (unclosed, (i.drained e).0));
    room = omega (arith, length-append c.buffer (x ∷ []));
  }
  Scans-IsChannel (closes unclosed nothing) i = record {
    nothing_left = λ e. nothing;
    drained = λ e. (refl, (i.drained e).1);
    room = i.room;
  }

  pub Scans-pending : {c d : Channel A} → Scans c d → pending d ≡ pending c
  Scans-pending (sends {c} {x} {xs} unclosed more space) =
      append_assoc c.buffer (x ∷ []) xs ∙ ap (λ l. c.buffer ++ l) (sym more)
  Scans-pending (closes unclosed nothing) = refl

  pub Scans-watched : {c d : Channel A} → Scans c d → d.watched ≡ c.watched
  Scans-watched (sends unclosed more space) = refl
  Scans-watched (closes unclosed nothing) = refl

  pub Takes-IsChannel : {c d : Channel A} {x : A} → Takes c x d → IsChannel c → IsChannel d
  Takes-IsChannel (takes {c} {x} {xs} watched full) i = record {
    nothing_left = i.nothing_left;
    drained = λ e. absurd (cc (watched, e));
    room = (let r = i.room in omega (arith, ap length full));
  }

  pub Ends-IsChannel : {c d : Channel A} → Ends c d → IsChannel c → IsChannel d
  Ends-IsChannel (ends watched closed empty) i = record {
    nothing_left = i.nothing_left;
    drained = λ e. (closed, empty);
    room = i.room;
  }

  pub Takes-watched : {c d : Channel A} {x : A} → Takes c x d → d.watched ≡ c.watched
  Takes-watched (takes watched full) = refl

  pub Takes-pending : {c d : Channel A} {x : A} → Takes c x d → pending c ≡ x ∷ pending d
  Takes-pending (takes {c} watched full) = ap (λ l. l ++ c.todo) full

  pub Ends-watched : {c d : Channel A} → Ends c d → d.watched ≡ false
  Ends-watched (ends watched closed empty) = refl

  pub Ends-pending :
      {c d : Channel A}
      → IsChannel c
      → Ends c d
      → (c.watched ≡ true) × (pending c ≡ []) × (pending d ≡ [])
  Ends-pending i (ends watched closed empty) =
      (watched, rw (empty, i.nothing_left closed), rw (empty, i.nothing_left closed))

  pub unwatched-pending : {c : Channel A} → IsChannel c → c.watched ≡ false → pending c ≡ []
  unwatched-pending {c} i e = let (closed, empty) = i.drained e in rw (empty, i.nothing_left closed)

-- An uncancelled run receives as long as one of the variables is not nil.
pub record IsWorld (w : World) : Type 0 where
  pub execs_fine : IsChannel w.execs
  pub desks_fine : IsChannel w.desks
  pub receives : w.is_cancelled ≡ false → w.receiving ≡ (w.execs.watched || w.desks.watched)

pub start_run-IsWorld :
    (es : List ExecutableInfo) (ds : List DesktopEntry) → IsWorld (start_run es ds)
start_run-IsWorld es ds = record {
  execs_fine = new_channel-IsChannel es;
  desks_fine = new_channel-IsChannel ds;
  receives = λ e. refl;
}

pub Beside-IsWorld : {w v : World} → Beside w v → IsWorld w → IsWorld v
Beside-IsWorld (executable_scanner {w} s) i = record {
  execs_fine = Scans-IsChannel s i.execs_fine;
  desks_fine = i.desks_fine;
  receives = λ e. i.receives e ∙ ap (λ b. b || w.desks.watched) (sym (Scans-watched s));
}
Beside-IsWorld (desktop_scanner {w} s) i = record {
  execs_fine = i.execs_fine;
  desks_fine = Scans-IsChannel s i.desks_fine;
  receives = λ e. i.receives e ∙ ap (λ b. w.execs.watched || b) (sym (Scans-watched s));
}
Beside-IsWorld (cancel live) i = record {
  execs_fine = i.execs_fine;
  desks_fine = i.desks_fine;
  receives = λ e. absurd (cc e);
}

module _ (hidden : Bytes → Bool) where
  pub Receives-IsWorld : {w v : World} {ev : Event} → Receives hidden w ev v → IsWorld w → IsWorld v
  Receives-IsWorld (receives_executable {w} on t) i = record {
    execs_fine = Takes-IsChannel t i.execs_fine;
    desks_fine = i.desks_fine;
    receives = λ e. i.receives e ∙ ap (λ b. b || w.desks.watched) (sym (Takes-watched t));
  }
  Receives-IsWorld (finds_executables_closed on t) i = record {
    execs_fine = Ends-IsChannel t i.execs_fine;
    desks_fine = i.desks_fine;
    receives = λ e. rw (Ends-watched t) refl;
  }
  Receives-IsWorld (receives_desktop {w} on t) i = record {
    execs_fine = i.execs_fine;
    desks_fine = Takes-IsChannel t i.desks_fine;
    receives = λ e. i.receives e ∙ ap (λ b. w.execs.watched || b) (sym (Takes-watched t));
  }
  Receives-IsWorld (finds_desktop_closed {w} on t) i = record {
    execs_fine = i.execs_fine;
    desks_fine = Ends-IsChannel t i.desks_fine;
    receives = λ e. rw (Ends-watched t) (ground arith);
  }
  Receives-IsWorld (finds_cancelled on c) i = record {
    execs_fine = i.execs_fine;
    desks_fine = i.desks_fine;
    receives = λ e. absurd (cc (c, e));
  }
