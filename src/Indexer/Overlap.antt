-- ===== src/Indexer/Overlap.antt =====
-- Calls of `runIndexing` and `Stop` that overlap (internal/indexer/indexer.go): the lock `mu`, the
-- flag `running`, the function `indexCancel`, and the group `indexWg`. A run gets a number when it
-- enters; its three goroutines are counted, and what they add is any entry.
pub mod Calm
pub mod Moves
pub mod Exclusive
pub mod Mixed
pub mod Commands
use ade_ctld.Common.{
  Bool, List, Option, [], false, if◌then◌else◌, none, some, suc, true, zero, ℕ, ◌+◌, ◌==◌, ◌∷◌, ◌≡◌,
  ◌≢◌, ◌⊎◌,
}
use ade_ctld.Index.{Entry, Index, add, count, new_index}

-- Where a call of `runIndexing` is: behind its first locked part, behind starting its goroutines,
-- behind `indexWg.Wait`, or behind its second locked part.
pub data Phase : Type 0 where
  entered launched awaited returned : Phase

-- Where a goroutine is that calls `indexWg.Wait`: the group does not count it yet; it sleeps until the
-- counter of the group is 0; the counter has been 0, and it has not gone on yet; or the group has
-- been replaced by a new one, which does not know it, and it sleeps for ever.
pub data Wait : Type 0 where
  arriving sleeping woken stranded : Wait

-- A call, what its `Wait` does once it has been launched, the number of its goroutines that have not
-- returned, and its context.
pub record Call : Type 0 where
  pub phase : Phase
  pub wait : Wait
  pub going : ℕ
  pub is_cancelled : Bool

-- Who holds `mu` while waiting for the group: nobody, a call of `runIndexing`, or `Stop`.
pub data Lock : Type 0 where
  free reindexing stopping : Lock

-- The indexer. `lock_wait` is the `Wait` of who holds the lock. `latest` is the call whose context `indexCancel` cancels, `made` the
-- number of calls that have entered, `group` the counter of `indexWg`, `owners` the calls whose entries are in the index; `crashed` says that the group has panicked.
pub record Indexer : Type 0 where
  pub running : Bool
  pub lock : Lock
  pub lock_wait : Wait
  pub latest : Option ℕ
  pub group : ℕ
  pub made : ℕ
  pub calls : ℕ → Call
  pub index : Index
  pub owners : List ℕ
  pub crashed : Bool

abbrev pub set_call : ℕ → Call → (ℕ → Call) → ℕ → Call
set_call i c calls j = if i == j then c else calls j

abbrev pub new_call : Call
new_call = record { phase = entered; wait = arriving; going = 0; is_cancelled = false }

-- `NewIndexer`: no call has been made, which is as if all had returned.
unfoldable pub new_indexer : Indexer
new_indexer = record {
  running = false;
  lock = free;
  lock_wait = arriving;
  latest = none;
  group = 0;
  made = 0;
  calls = λ i. record { phase = returned; wait = arriving; going = 0; is_cancelled = false };
  index = new_index;
  owners = [];
  crashed = false;
}

-- The end of the first locked part: a new context, `running` is set, and the index is a new one.
abbrev pub enter : Indexer → Indexer
enter w = record w {
  running = true;
  lock = free;
  latest = some w.made;
  made = w.made + 1;
  calls = set_call w.made new_call w.calls;
  index = new_index;
  owners = [];
}

-- Who sleeps in the group before, is not known to the new one.
abbrev pub strand : Wait → Wait
strand sleeping = stranded
strand arriving = arriving
strand woken = woken
strand stranded = stranded

-- The counter of the group is now `g`; at 0 those that sleep are woken.
abbrev pub wake : ℕ → Wait → Wait
wake zero sleeping = woken
wake zero arriving = arriving
wake zero woken = woken
wake zero stranded = stranded
wake (suc g) s = s

abbrev pub each_wait : (Wait → Wait) → (ℕ → Call) → ℕ → Call
each_wait f calls j = record (calls j) { wait = f (calls j).wait }

-- Behind the locked part, the group is a new one, and the three goroutines start; here in one step,
-- so nothing happens between the three additions to the group.
abbrev pub launch : ℕ → Indexer → Indexer
launch i w = record w {
  group = 3;
  lock_wait = strand w.lock_wait;
  calls =
      set_call i (record (w.calls i) { phase = launched; wait = arriving; going = 3 })
        (each_wait strand w.calls);
}

-- A goroutine has returned; the group and the call count what is left.
abbrev pub return_to : ℕ → ℕ → ℕ → Indexer → Indexer
return_to g n i w = record w {
  group = g;
  lock_wait = wake g w.lock_wait;
  calls = each_wait (wake g) (set_call i (record (w.calls i) { going = n }) w.calls);
}

-- A call sleeps in the group.
abbrev pub sleep : ℕ → Indexer → Indexer
sleep i w = record w { calls = set_call i (record (w.calls i) { wait = sleeping }) w.calls }

-- `Wait` of a call has returned.
abbrev pub await_group : ℕ → Indexer → Indexer
await_group i w = record w { calls = set_call i (record (w.calls i) { phase = awaited }) w.calls }

-- The second locked part takes `running` back, whichever call has set it.
abbrev pub leave : ℕ → Indexer → Indexer
leave i w = record w {
  running = false;
  calls = set_call i (record (w.calls i) { phase = returned }) w.calls;
}

-- An entry goes to the index that is now the indexer's.
abbrev pub add_entry : ℕ → Entry → Indexer → Indexer
add_entry i e w = record w { index = (add e w.index).0; owners = i ∷ w.owners }

-- the context of a call is cancelled
abbrev pub cancel_call : Option ℕ → (ℕ → Call) → ℕ → Call
cancel_call none calls = calls
cancel_call (some i) calls = set_call i (record (calls i) { is_cancelled = true }) calls

-- A call that finds a run cancels it, and keeps the lock until the group is empty.
abbrev pub supersede : Indexer → Indexer
supersede w = record w {
  lock = reindexing;
  lock_wait = arriving;
  calls = cancel_call w.latest w.calls;
}

-- `Stop`, in front of its `Wait`
abbrev pub stop : Indexer → Indexer
stop w = record w {
  running = false;
  lock = stopping;
  lock_wait = arriving;
  calls = if w.running then cancel_call w.latest w.calls else w.calls;
}

-- `IsRunning`
unfoldable pub is_running : Indexer → Bool
is_running w = w.running

-- `GetIndex`
unfoldable pub get_index : Indexer → Index
get_index w = w.index

-- what `Reindex` returns behind its run: the number of entries in the index that is then there
unfoldable pub reindexed : Indexer → ℕ
unfolding get_index count
reindexed w = count (get_index w)

-- `Wait` goes on if the counter is 0 and it does not sleep.
abbrev pub IsAwake : Wait → Type 0
IsAwake s = (s ≡ arriving) ⊎ (s ≡ woken)

-- Steps of the calls, of their goroutines and of `Stop`. A `Wait` that has been woken and then finds
-- the counter of a new group panics, since the group is reused before it has gone on.
pub data Step (w : Indexer) : Indexer → Type 0 where
  -- A call finds nothing running, and enters.
  enters : w.lock ≡ free → w.running ≡ false → Step w (enter w)
  -- A call finds a run, cancels it, and waits for the group with the lock in its hands. (Where
  -- `running` is set, so is `indexCancel`.)
  supersedes : w.lock ≡ free → w.running ≡ true → Step w (supersede w)
  -- The wait is over.
  enters_behind : w.lock ≡ reindexing → IsAwake w.lock_wait → w.group ≡ 0 → Step w (enter w)
  launches : (i : ℕ) → (w.calls i).phase ≡ entered → Step w (launch i w)
  adds : (i : ℕ) (e : Entry) {n : ℕ} → (w.calls i).going ≡ suc n → Step w (add_entry i e w)
  -- The goroutines count the group down, whichever call has set it.
  goroutine_returns :
      (i : ℕ) {n g : ℕ} → (w.calls i).going ≡ suc n → w.group ≡ suc g → Step w (return_to g n i w)
  counts_below_zero :
      (i : ℕ) {n : ℕ}
      → (w.calls i).going ≡ suc n
      → w.group ≡ 0
      → Step w (record w { crashed = true })
  sleeps :
      (i : ℕ) {g : ℕ}
      → (w.calls i).phase ≡ launched
      → (w.calls i).wait ≡ arriving
      → w.group ≡ suc g
      → Step w (sleep i w)
  sleeps_locked :
      {g : ℕ}
      → w.lock ≢ free
      → w.lock_wait ≡ arriving
      → w.group ≡ suc g
      → Step w (record w { lock_wait = sleeping })
  reuses :
      (i : ℕ) {g : ℕ}
      → (w.calls i).phase ≡ launched
      → (w.calls i).wait ≡ woken
      → w.group ≡ suc g
      → Step w (record w { crashed = true })
  reuses_locked :
      {g : ℕ}
      → w.lock ≢ free
      → w.lock_wait ≡ woken
      → w.group ≡ suc g
      → Step w (record w { crashed = true })
  awaits :
      (i : ℕ)
      → (w.calls i).phase ≡ launched
      → IsAwake (w.calls i).wait
      → w.group ≡ 0
      → Step w (await_group i w)
  leaves : (i : ℕ) → (w.calls i).phase ≡ awaited → w.lock ≡ free → Step w (leave i w)
  -- `Stop` cancels what is running, and waits for the group with the lock in its hands.
  stops : w.lock ≡ free → Step w (stop w)
  stop_returns :
      w.lock ≡ stopping → IsAwake w.lock_wait → w.group ≡ 0 → Step w (record w { lock = free })

pub data Steps (w : Indexer) : Indexer → Type 0 where
  no_step : Steps w w
  one_more_step : {v t : Indexer} → Steps w v → Step v t → Steps w t

-- What the steps of a call do to the index: it is a new one, or gets an entry.
pub data Indexes (idx : Index) : Index → Type 0 where
  clears : Indexes idx new_index
  fills : (e : Entry) → Indexes idx (add e idx).0
