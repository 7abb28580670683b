-- ===== src/Indexer/Overlap/Calm.antt =====
-- Steps of overlapping calls of `runIndexing` and `Stop` (internal/indexer/indexer.go) that do not
-- disturb one another, and what they keep.
use mathlib.Core.Option.{some-injective}
use ade_ctld.Common.{
  ==_iff, All, Bool, Bool-cases, Option, ap, false, inl, inr, none, refl, some, subst, suc, sym,
  true, zero, ℕ, ◌==◌, ◌∙◌, ◌≡◌, ◌≢◌, ◌⊎◌,
}
use ade_ctld.Indexer.Overlap.{
  Call, Indexer, Step, Steps, Wait, adds, arriving, awaits, cancel_call, counts_below_zero, entered,
  enters, enters_behind, free, goroutine_returns, launched, launches, leaves, no_step,
  one_more_step, returned, reuses, reuses_locked, set_call, sleeping, sleeps, sleeps_locked,
  stop_returns, stopping, stops, strand, stranded, supersedes, wake, woken,
}

-- Every call has started its goroutines if it has entered.
abbrev pub NoneEntering : Indexer → Type 0
NoneEntering w = (i : ℕ) → (w.calls i).phase ≢ entered

-- Every call that the group has woken has gone on.
abbrev pub NoneWoken : Indexer → Type 0
NoneWoken w = (i : ℕ) → (w.calls i).phase ≡ launched → (w.calls i).wait ≢ woken

-- A step is calm if no call enters, and `Stop` is not called, between the locked part of another
-- call and the start of its goroutines, if a call starts its goroutines when those that the group has
-- woken have gone on, and if a call that another one has superseded does not take `running` back
-- before that one has returned.
abbrev pub IsCalm : {w v : Indexer} → Step w v → Type 0
IsCalm {w} (enters unlocked quiet) = NoneEntering w
IsCalm {w} (supersedes unlocked busy) = NoneEntering w
IsCalm {w} (enters_behind locked s done) = NoneEntering w
IsCalm {w} (launches i e) = NoneWoken w
IsCalm (adds i e g) = Unit
IsCalm (goroutine_returns i g h) = Unit
IsCalm (counts_below_zero i g h) = Unit
IsCalm (sleeps i l s g) = Unit
IsCalm (sleeps_locked l s g) = Unit
IsCalm (reuses i l s g) = Unit
IsCalm (reuses_locked l s g) = Unit
IsCalm (awaits i l s h) = Unit
IsCalm {w} (leaves i a unlocked) =
    (c : ℕ) → w.latest ≡ some c → (c ≡ i) ⊎ ((w.calls c).phase ≡ returned)
IsCalm {w} (stops unlocked) = NoneEntering w
IsCalm (stop_returns locked s done) = Unit

abbrev pub AreCalm : {w v : Indexer} → Steps w v → Type 0
AreCalm no_step = Unit
AreCalm (one_more_step xs x) = AreCalm xs × IsCalm x

-- What holds of each call: only the latest has goroutines, which the group counts.
pub record Fits (latest : Option ℕ) (group : ℕ) (running : Bool) (j : ℕ) (k : Call) : Type 0 where
  pub other : latest ≢ some j → k.going ≡ 0
  pub mine : latest ≡ some j → group ≡ k.going
  pub settled : k.phase ≢ launched → k.going ≡ 0
  pub entering : k.phase ≡ entered → (latest ≡ some j) × (running ≡ true)
  pub roused : k.phase ≡ launched → k.wait ≡ woken → group ≡ 0

pub record IsExclusive (w : Indexer) : Type 0 where
  pub fits : (j : ℕ) → Fits w.latest w.group w.running j (w.calls j)
  pub none_yet : w.latest ≡ none → w.group ≡ 0
  pub idle : w.running ≡ false → w.lock ≢ stopping → w.group ≡ 0
  pub owned : All (λ i. w.latest ≡ some i) w.owners
  pub locked_quiet : w.lock ≢ free → NoneEntering w
  pub locked_roused : w.lock ≢ free → w.lock_wait ≡ woken → w.group ≡ 0
  pub sound : w.crashed ≡ false

pub set_call-each :
    (P : ℕ → Call → Type 0) (i : ℕ) (c : Call) (calls : ℕ → Call)
    → P i c
    → ((j : ℕ) → i ≢ j → P j (calls j))
    → (j : ℕ) → P j (set_call i c calls j)
set_call-each P i c calls h hs j = elim (Bool-cases (i == j)) [
  | inl same ↦ rw same (subst (λ n. P n c) ((==_iff i j).0 same) h)
  | inr other ↦ rw other (hs j (λ e. cc ((==_iff i j).1 e)))
]

-- with an empty group, nothing goes
pub quiet :
    (latest : Option ℕ) {running : Bool} (j : ℕ) {k : Call} {group : ℕ}
    → Fits latest group running j k
    → group ≡ 0
    → k.going ≡ 0
quiet none j f e = f.other (λ h. cc h)
quiet (some c) j f e = elim (Bool-cases (c == j)) [
  | inl same ↦ sym (f.mine (ap some ((==_iff c j).0 same))) ∙ e
  | inr other ↦ f.other (λ h. cc ((==_iff c j).1 (some-injective _ _ h)))
]

-- the cancellation of a context does not change what holds
pub Fits-cancel_call :
    (latest : Option ℕ) {group : ℕ} {running : Bool} (o : Option ℕ) (calls : ℕ → Call)
    → ((j : ℕ) → Fits latest group running j (calls j))
    → (j : ℕ) → Fits latest group running j (cancel_call o calls j)
Fits-cancel_call latest none calls fits = fits
Fits-cancel_call latest {group} {running} (some i) calls fits =
    set_call-each (Fits latest group running) i (record (calls i) { is_cancelled = true }) calls
      (record {
        other = (fits i).other;
        mine = (fits i).mine;
        settled = (fits i).settled;
        entering = (fits i).entering;
        roused = (fits i).roused;
      })
      (λ j other. fits j)

-- nor does what a call's `Wait` does, unless it is woken
pub Fits-wait :
    {latest : Option ℕ} {group : ℕ} {running : Bool} {j : ℕ} {k : Call} (s : Wait)
    → Fits latest group running j k
    → (k.phase ≡ launched → s ≡ woken → group ≡ 0)
    → Fits latest group running j (record k { wait = s })
Fits-wait s f h = record {
  other = f.other;
  mine = f.mine;
  settled = f.settled;
  entering = f.entering;
  roused = h;
}

pub strand-woken : (s : Wait) → strand s ≡ woken → s ≡ woken
strand-woken sleeping h = absurd (cc h)
strand-woken arriving h = absurd (cc h)
strand-woken stranded h = absurd (cc h)
strand-woken woken h = refl

pub wake-woken : (g : ℕ) (s : Wait) → wake g s ≡ woken → (s ≡ woken) ⊎ (g ≡ 0)
wake-woken zero s h = inr refl
wake-woken (suc g) s h = inl h

-- a call that is not entering, put among calls of which none is
pub set_call-quiet :
    (i : ℕ) (c : Call) (calls : ℕ → Call)
    → c.phase ≢ entered
    → ((j : ℕ) → (calls j).phase ≢ entered)
    → (j : ℕ) → (set_call i c calls j).phase ≢ entered
set_call-quiet i c calls h hs =
    set_call-each (λ j k. k.phase ≢ entered) i c calls h (λ j other. hs j)

pub cancel_call-quiet :
    (o : Option ℕ) (calls : ℕ → Call)
    → ((j : ℕ) → (calls j).phase ≢ entered)
    → (j : ℕ) → (cancel_call o calls j).phase ≢ entered
cancel_call-quiet none calls h = h
cancel_call-quiet (some i) calls h =
    set_call-quiet i (record (calls i) { is_cancelled = true }) calls (h i) h
