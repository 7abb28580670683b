-- ===== src/Indexer/Overlap/Commands.antt =====
-- What the commands of the server see of calls of `runIndexing` (internal/indexer/indexer.go) that
-- overlap.
use ade_ctld.Common.{inl, inr, refl, subst, sym, ◌≡◌, ◌⊎◌}
use ade_ctld.Index.{Index}
use ade_ctld.Index.Laws.{IsIndex, add-IsIndex, new_index-IsIndex}
use ade_ctld.Indexer.Overlap.{
  Indexer, Indexes, Step, Steps, adds, awaits, clears, counts_below_zero, enters, enters_behind,
  fills, goroutine_returns, launches, leaves, new_indexer, no_step, one_more_step, reuses,
  reuses_locked, sleeps, sleeps_locked, stop_returns, stops, supersedes,
}

pub Indexes-IsIndex : {idx changed : Index} → Indexes idx changed → IsIndex idx → IsIndex changed
Indexes-IsIndex clears v = new_index-IsIndex
Indexes-IsIndex (fills e) v = add-IsIndex e v

-- A step leaves the index as it is, clears it, or adds an entry to it.
pub Step-Indexes : {w v : Indexer} → Step w v → (v.index ≡ w.index) ⊎ Indexes w.index v.index
Step-Indexes (enters unlocked off) = inr clears
Step-Indexes (supersedes unlocked busy) = inl refl
Step-Indexes (enters_behind locked s e) = inr clears
Step-Indexes (launches i e) = inl refl
Step-Indexes (adds i e g) = inr (fills e)
Step-Indexes (goroutine_returns i g h) = inl refl
Step-Indexes (counts_below_zero i g h) = inl refl
Step-Indexes (awaits i l s e) = inl refl
Step-Indexes (leaves i a unlocked) = inl refl
Step-Indexes (stops unlocked) = inl refl
Step-Indexes (stop_returns locked s e) = inl refl
Step-Indexes (sleeps i l s g) = inl refl
Step-Indexes (sleeps_locked l s g) = inl refl
Step-Indexes (reuses i l s g) = inl refl
Step-Indexes (reuses_locked l s g) = inl refl

-- However calls overlap, the index that commands look at is well-formed.
pub Steps-IsIndex : {w : Indexer} → Steps new_indexer w → IsIndex w.index
unfolding new_indexer
Steps-IsIndex no_step = new_index-IsIndex
Steps-IsIndex (one_more_step {v} xs x) = elim (Step-Indexes x) [
  | inl same ↦ subst IsIndex (sym same) (Steps-IsIndex xs)
  | inr changes ↦ Indexes-IsIndex changes (Steps-IsIndex xs)
]
