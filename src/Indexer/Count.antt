-- ===== src/Indexer/Count.antt =====
-- What an indexing run (internal/indexer/indexer.go) puts into the index.
use mathlib.Core.List.{Permᴰ, map-append}
use mathlib.Core.List.Permᴰ
use ade_ctld.Common.{
  All, Bool, Bool-cases, List, [], ap, append-nil, append_assoc, false, if◌then◌else◌, inl, inr,
  length, length-perm, map, perm_move, perm_prefix, refl, subst, suc, sym, true, ℕ, ◌++◌, ◌∙◌, ◌∷◌,
  ◌≡◌,
}
use ade_ctld.Text.{Bytes}
use ade_ctld.Index.{Entry, Index, add, values, new_index, count}
use ade_ctld.Index.Laws.{IsIndex, add-IsIndex, new_index-IsIndex, entries-add}
use ade_ctld.Desktop.{DesktopEntry}
use ade_ctld.Executable.{ExecutableInfo}
use ade_ctld.Indexer.{
  Event, cancelled, desktop, entry_of_desktop, entry_of_executable, executable, no_more_desktop,
  no_more_executables, process_results, run_indexing,
}

-- The events of a run that is not cancelled: the executables and the desktop entries arrive in the
-- order in which they are sent, in any interleaving, and each channel is closed behind its last
-- element. The flags say which channels are open.
pub data Merge : Bool → Bool → List ExecutableInfo → List DesktopEntry → List Event → Type 0 where
  both_closed : Merge false false [] [] []
  next_executable :
      {y : Bool} {e : ExecutableInfo} {es : List ExecutableInfo} {ds : List DesktopEntry}
      {evs : List Event}
      → Merge true y es ds evs
      → Merge true y (e ∷ es) ds (executable e ∷ evs)
  close_executables :
      {y : Bool} {ds : List DesktopEntry} {evs : List Event}
      → Merge false y [] ds evs
      → Merge true y [] ds (no_more_executables ∷ evs)
  next_desktop :
      {x : Bool} {es : List ExecutableInfo} {d : DesktopEntry} {ds : List DesktopEntry}
      {evs : List Event}
      → Merge x true es ds evs
      → Merge x true es (d ∷ ds) (desktop d ∷ evs)
  close_desktop :
      {x : Bool} {es : List ExecutableInfo} {evs : List Event}
      → Merge x false es [] evs
      → Merge x true es [] (no_more_desktop ∷ evs)

-- an entry without its identifier
abbrev pub content : Entry → Entry
content e = record e { id = 0 }

abbrev pub contents : Index → List Entry
contents idx = map content (values idx.entries)

-- the entries of the desktop files that are displayed
abbrev pub visible : (Bytes → Bool) → List DesktopEntry → List Entry
visible hidden [] = []
visible hidden (d ∷ ds) =
    if hidden d.path then visible hidden ds else entry_of_desktop d ∷ visible hidden ds

abbrev pub expected : (Bytes → Bool) → List ExecutableInfo → List DesktopEntry → List Entry
expected hidden es ds = map entry_of_executable es ++ visible hidden ds

values-append :
    (m : List (ℕ × Entry)) (n : ℕ) (e : Entry) → values (m ++ (n, e) ∷ []) ≡ values m ++ e ∷ []
unfolding values
values-append [] n e = refl
values-append ((k, d) ∷ m) n e = ap (◌∷◌ d) (values-append m n e)

contents-add :
    (e : Entry) {idx : Index}
    → IsIndex idx
    → e.id ≡ 0
    → contents (add e idx).0 ≡ contents idx ++ e ∷ []
contents-add e {idx} v zero_id =
    ap (λ m. map content (values m)) (entries-add e v)
    ∙ ap (map content) (values-append idx.entries idx.next_id (record e { id = idx.next_id }))
    ∙ map-append content (values idx.entries) (record e { id = idx.next_id } ∷ [])
    ∙ ap (λ n. contents idx ++ record e { id = n } ∷ []) (sym zero_id)

-- an event whose entry, if it brings one, is fine
abbrev pub BringsFine : (Entry → Type 0) → Event → Type 0
BringsFine Fine (executable e) = Fine (entry_of_executable e)
BringsFine Fine (desktop d) = Fine (entry_of_desktop d)
BringsFine Fine _ = Unit

module _ (hidden : Bytes → Bool) where
  abbrev Filled : Index → List ExecutableInfo → List DesktopEntry → Index → Type 0
  Filled idx es ds result =
      IsIndex result × Permᴰ (contents result) (contents idx ++ expected hidden es ds)

  Filled-executable :
      (e : ExecutableInfo) (es : List ExecutableInfo) (ds : List DesktopEntry) {idx result : Index}
      → IsIndex idx
      → Filled (add (entry_of_executable e) idx).0 es ds result
      → Filled idx (e ∷ es) ds result
  Filled-executable e es ds {idx} v (w, p) = (
    w,
    subst (Permᴰ _)
        (ap (λ c. c ++ expected hidden es ds) (contents-add (entry_of_executable e) v refl)
          ∙ append_assoc (contents idx) (entry_of_executable e ∷ []) (expected hidden es ds))
        p,
  )

  Filled-desktop :
      (d : DesktopEntry) (es : List ExecutableInfo) (ds : List DesktopEntry) {idx result : Index}
      → IsIndex idx
      → hidden d.path ≡ false
      → Filled (add (entry_of_desktop d) idx).0 es ds result
      → Filled idx es (d ∷ ds) result
  Filled-desktop d es ds {idx} v shown (w, p) = (
    w,
    rw shown (
        Permᴰ.trans
          (subst (Permᴰ _)
            (ap (λ c. c ++ expected hidden es ds) (contents-add (entry_of_desktop d) v refl)
              ∙ append_assoc (contents idx) (entry_of_desktop d ∷ []) (expected hidden es ds))
            p)
          (perm_prefix (contents idx)
            (perm_move (map entry_of_executable es) (visible hidden ds) (entry_of_desktop d)))),
  )

  Filled-hidden :
      (d : DesktopEntry) (es : List ExecutableInfo) (ds : List DesktopEntry) (idx : Index)
      {result : Index}
      → hidden d.path ≡ true
      → Filled idx es ds result
      → Filled idx es (d ∷ ds) result
  Filled-hidden d es ds idx h (w, p) = (w, rw h p)

  process_results-desktop :
      (x : Bool) (d : DesktopEntry) (evs : List Event) (idx : Index) {b : Bool}
      → hidden d.path ≡ b
      → process_results hidden x true (desktop d ∷ evs) idx
        ≡ process_results hidden x true evs (if b then idx else (add (entry_of_desktop d) idx).0)
  unfolding process_results
  process_results-desktop x d evs idx h =
      ap
        (λ b.
          process_results hidden x true evs (if b then idx else (add (entry_of_desktop d) idx).0))
        h

  process_results_lem :
      {x y : Bool} {es : List ExecutableInfo} {ds : List DesktopEntry} {evs : List Event}
      (idx : Index)
      → IsIndex idx
      → Merge x y es ds evs
      → Filled idx es ds (process_results hidden x y evs idx)
  unfolding process_results
  process_results_lem idx v both_closed = (v, rw append-nil (Permᴰ.refl (contents idx)))
  process_results_lem idx v (next_executable {e} {es} {ds} m) = Filled-executable e es ds v (
      process_results_lem (add (entry_of_executable e) idx).0
        (add-IsIndex (entry_of_executable e) v) m)
  process_results_lem idx v (close_executables {y = true} m) = process_results_lem idx v m
  process_results_lem idx v (close_executables {y = false} both_closed) =
      (v, rw append-nil (Permᴰ.refl (contents idx)))
  process_results_lem idx v (next_desktop {x} {es} {d} {ds} {evs} m) =
      elim (Bool-cases (hidden d.path)) [
        | inl h ↦
            subst (Filled idx es (d ∷ ds)) (sym (process_results-desktop x d evs idx h))
              (Filled-hidden d es ds idx h (process_results_lem idx v m))
        | inr s ↦ subst (Filled idx es (d ∷ ds)) (sym (process_results-desktop x d evs idx s)) (
            Filled-desktop d es ds v s (
              process_results_lem (add (entry_of_desktop d) idx).0
                (add-IsIndex (entry_of_desktop d) v) m))
      ]
  process_results_lem idx v (close_desktop {x = true} m) = process_results_lem idx v m
  process_results_lem idx v (close_desktop {x = false} both_closed) =
      (v, rw append-nil (Permᴰ.refl (contents idx)))

  -- What holds of an index and is kept by adding an entry that is fine, holds behind fine events.
  pub process_results-keeps :
      (P : Index → Type 0) (Fine : Entry → Type 0)
      → ((e : Entry) (idx : Index) → Fine e → P idx → P (add e idx).0)
      → (x y : Bool) (evs : List Event) (idx : Index) → All (BringsFine Fine) evs
      → P idx
      → P (process_results hidden x y evs idx)
  unfolding process_results
  process_results-keeps P Fine keep x y [] idx fs v = v
  process_results-keeps P Fine keep x y (cancelled ∷ evs) idx fs v = v
  process_results-keeps P Fine keep x y (executable e ∷ evs) idx (f, fs) v =
      process_results-keeps P Fine keep x y evs (add (entry_of_executable e) idx).0 fs
        (keep (entry_of_executable e) idx f v)
  process_results-keeps P Fine keep x true (no_more_executables ∷ evs) idx (f, fs) v =
      process_results-keeps P Fine keep false true evs idx fs v
  process_results-keeps P Fine keep x false (no_more_executables ∷ evs) idx fs v = v
  process_results-keeps P Fine keep true y (no_more_desktop ∷ evs) idx (f, fs) v =
      process_results-keeps P Fine keep true false evs idx fs v
  process_results-keeps P Fine keep false y (no_more_desktop ∷ evs) idx fs v = v
  process_results-keeps P Fine keep x y (desktop d ∷ evs) idx (f, fs) v =
      process_results-keeps P Fine keep x y evs
        (if hidden d.path then idx else (add (entry_of_desktop d) idx).0) fs
        (elim (Bool-cases (hidden d.path)) [
          | inl h ↦ rw h v
          | inr s ↦ rw s (keep (entry_of_desktop d) idx f v)
        ])

  any_event : (evs : List Event) → All (BringsFine (λ e. Unit)) evs
  any_event [] = tt
  any_event (cancelled ∷ evs) = (tt, any_event evs)
  any_event (executable e ∷ evs) = (tt, any_event evs)
  any_event (no_more_executables ∷ evs) = (tt, any_event evs)
  any_event (desktop d ∷ evs) = (tt, any_event evs)
  any_event (no_more_desktop ∷ evs) = (tt, any_event evs)

  -- Whatever arrives, and wherever the run stops, the index is well-formed.
  pub run_indexing-IsIndex : (evs : List Event) → IsIndex (run_indexing hidden evs)
  unfolding run_indexing
  run_indexing-IsIndex evs =
      process_results-keeps IsIndex (λ e. Unit) (λ e idx f v. add-IsIndex e v) true true evs
        new_index (any_event evs) new_index-IsIndex

  length-values : (m : List (ℕ × Entry)) → length (map content (values m)) ≡ length m
  unfolding values
  length-values [] = refl
  length-values ((k, e) ∷ m) = ap suc (length-values m)

  -- However the two scanners interleave, an indexing run that is not cancelled leaves a well-formed
  -- index with exactly one entry for each executable and for each desktop file that is displayed;
  -- the count is the number of these.
  pub run_indexing_lem :
      {es : List ExecutableInfo} {ds : List DesktopEntry} {evs : List Event}
      → Merge true true es ds evs
      → IsIndex (run_indexing hidden evs)
        × Permᴰ (contents (run_indexing hidden evs)) (expected hidden es ds)
        × (count (run_indexing hidden evs) ≡ length (expected hidden es ds))
  unfolding run_indexing count
  run_indexing_lem {es} {ds} {evs} m =
      let (v, p) = process_results_lem new_index new_index-IsIndex m in
      let idx = process_results hidden true true evs new_index in
      (v, (unfold values in p), sym (length-values idx.entries) ∙ length-perm (unfold values in p))
