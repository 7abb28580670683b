-- ===== src/Indexer/Overlap/Mixed.antt =====
-- What a superseded call of `runIndexing` (internal/indexer/indexer.go) does to the calls behind it.
use ade_ctld.Common.{nat_eq}
use ade_ctld.Common.{
  ==_iff, Bool-cases, [], ap, arith, false, inl, inr, refl, suc, true, ℕ, ◌<◌, ◌==◌, ◌∙◌, ◌∷◌, ◌≡◌,
  ◌≢◌,
}
use ade_ctld.Index.{Entry, add, new_index}
use ade_ctld.Indexer.Overlap.{
  Call, Indexer, Steps, add_entry, adds, arriving, awaited, each_wait, enter, enters, free, launch,
  launched, launches, leave, leaves, new_call, no_step, one_more_step, strand,
}

same_number : (i : ℕ) → (i == i) ≡ true
same_number i = (==_iff i i).1 refl

other_number : (i j : ℕ) → i ≢ j → (i == j) ≡ false
other_number i j h = elim (Bool-cases (i == j)) [
  | inl same ↦ absurd (h ((==_iff i j).0 same))
  | inr other ↦ other
]

module _ (w : Indexer) (r c : ℕ) (e : Entry) where
  -- the superseded call leaves, and a further call enters and starts its goroutines
  abbrev further : Indexer
  further = launch w.made (enter (leave r w))

  abbrev pub doubled : Indexer
  doubled = add_entry w.made e (add_entry c e further)

  further-call : r ≢ c → c < w.made → further.calls c ≡ each_wait strand w.calls c
  further-call different old =
      rw (other_number w.made c (λ h. absurd (omega (arith, h))), other_number r c different) refl

  further-made :
      further.calls w.made
      ≡ record { phase = launched; wait = arriving; going = 3; is_cancelled = false }
  further-made = rw (same_number w.made) refl

  entered_made : (enter (leave r w)).calls w.made ≡ new_call
  entered_made = rw (same_number w.made) refl

  -- Whenever a superseded call returns while the call behind it has a goroutine, a further call
  -- finds `running` taken back: it neither cancels nor awaits the one before it. Both fill the new
  -- index, which may list a program of theirs twice, and no context has been cancelled for it.
  pub superseded-doubles :
      {n : ℕ}
      → w.lock ≡ free
      → (w.calls r).phase ≡ awaited
      → r ≢ c
      → c < w.made
      → (w.calls c).going ≡ suc n
      → (w.calls c).is_cancelled ≡ false
      → (v : Indexer) × Steps w v
        × (v.owners ≡ w.made ∷ c ∷ [])
        × (v.index ≡ (add e (add e new_index).0).0)
        × ((v.calls c).is_cancelled ≡ false)
        × ((v.calls w.made).is_cancelled ≡ false)
  superseded-doubles unlocked back different old g live = (
    doubled,
    one_more_step
        (one_more_step
          (one_more_step
            (one_more_step (one_more_step no_step (leaves r back unlocked)) (enters unlocked refl))
            (launches w.made (ap (λ (k : Call). k.phase) entered_made)))
          (adds c e (ap (λ (k : Call). k.going) (further-call different old) ∙ g)))
        (adds w.made e (ap (λ (k : Call). k.going) further-made)),
    refl,
    refl,
    ap (λ (k : Call). k.is_cancelled) (further-call different old) ∙ live,
    ap (λ (k : Call). k.is_cancelled) further-made,
  )
