-- ===== src/Indexer/Overlap/Moves.antt =====
-- What a calm step of overlapping calls of `runIndexing` and `Stop` (internal/indexer/indexer.go)
-- keeps, one kind of step at a time.
use mathlib.Core.Option.{some-injective}
use ade_ctld.Common.{
  ==_iff, Bool, Bool-cases, Option, ap, arith, false, if◌then◌else◌, inl, inr, none, refl, some,
  suc, sym, true, ℕ, ◌==◌, ◌∙◌, ◌≡◌, ◌≢◌,
}
use ade_ctld.Indexer.Overlap.{
  Indexer, arriving, awaited, cancel_call, each_wait, enter, entered, free, launch, launched,
  leaves, new_call, return_to, returned, set_call, sleep, sleeping, stopping, strand,
}
use ade_ctld.Indexer.Overlap.Calm.{
  Fits, Fits-cancel_call, Fits-wait, IsCalm, IsExclusive, NoneEntering, NoneWoken,
  cancel_call-quiet, quiet, set_call-each, set_call-quiet, strand-woken, wake-woken,
}

module _ {w : Indexer} (x : IsExclusive w) where
  pub enter-IsExclusive : w.group ≡ 0 → NoneEntering w → IsExclusive (enter w)
  enter-IsExclusive e calm = record {
    fits =
        set_call-each (Fits (some w.made) w.group true) w.made new_call w.calls
          (record {
            other = λ h. refl;
            mine = λ h. e;
            settled = λ h. refl;
            entering = λ h. (refl, refl);
            roused = λ h k. e;
          })
          (λ j other.
            let nothing = quiet w.latest j (x.fits j) e in
            record {
              other = λ h. nothing;
              mine = λ h. e ∙ sym nothing;
              settled = λ h. nothing;
              entering = λ h. absurd (calm j h);
              roused = λ h k. e;
            });
    none_yet = λ h. e;
    idle = λ h k. e;
    owned = tt;
    locked_quiet = λ h. absurd (h refl);
    locked_roused = λ h k. e;
    sound = x.sound;
  }

  pub launches-IsExclusive :
      (i : ℕ) → (w.calls i).phase ≡ entered → NoneWoken w → IsExclusive (launch i w)
  launches-IsExclusive i e calm =
      let (latest, busy) = (x.fits i).entering e in
      record {
        fits =
            set_call-each (Fits w.latest 3 w.running) i
              (record (w.calls i) { phase = launched; wait = arriving; going = 3 })
              (each_wait strand w.calls)
              (record {
                other = λ h. absurd (h latest);
                mine = λ h. refl;
                settled = λ h. absurd (h refl);
                entering = λ h. absurd (cc h);
                roused = λ h k. absurd (cc k);
              })
              (λ j different. record {
                other = (x.fits j).other;
                mine = λ h. absurd (different (some-injective _ _ (sym latest ∙ h)));
                settled = (x.fits j).settled;
                entering = (x.fits j).entering;
                roused = λ h k. absurd (calm j h (strand-woken (w.calls j).wait k));
              });
        none_yet = λ h. absurd (cc (h, latest));
        idle = λ h k. absurd (cc (h, busy));
        owned = x.owned;
        locked_quiet = λ h. absurd (x.locked_quiet h i e);
        locked_roused = λ h k. absurd (x.locked_quiet h i e);
        sound = x.sound;
      }

  -- a call with a goroutine is the latest
  pub going-latest : (i : ℕ) {n : ℕ} → (w.calls i).going ≡ suc n → w.latest ≡ some i
  going-latest i g = by_latest w.latest refl
    where
      by_latest : (o : Option ℕ) → w.latest ≡ o → w.latest ≡ some i
      by_latest none e = absurd (cc (g, (x.fits i).other (λ h. cc (h, e))))
      by_latest (some c) e = elim (Bool-cases (c == i)) [
        | inl same ↦ e ∙ ap some ((==_iff c i).0 same)
        | inr other ↦
            absurd
              (cc (g, (x.fits i).other (λ h. cc ((==_iff c i).1 (some-injective _ _ (sym e ∙ h))))))
      ]

  pub goroutine_returns-IsExclusive :
      (i : ℕ) {n g : ℕ}
      → (w.calls i).going ≡ suc n
      → w.group ≡ suc g
      → IsExclusive (return_to g n i w)
  goroutine_returns-IsExclusive i {n} {g} e h = record {
    fits = λ j. Fits-wait _ (counted j) (λ p k. elim (wake-woken g _ k) [
      | inr zero_now ↦ zero_now
      | inl before ↦ (counted j).roused p before
    ]);
    none_yet = λ k. absurd (cc (k, latest));
    idle = λ k l. absurd (omega (arith, x.idle k l, h));
    owned = x.owned;
    locked_quiet = λ k.
        set_call-quiet i (record (w.calls i) { going = n }) w.calls (x.locked_quiet k i)
          (x.locked_quiet k);
    locked_roused = λ k s. elim (wake-woken g w.lock_wait s) [
      | inr zero_now ↦ zero_now
      | inl before ↦ absurd (omega (arith, x.locked_roused k before, h))
    ];
    sound = x.sound;
  }
    where
      latest : w.latest ≡ some i
      latest = going-latest i e

      counted :
          (j : ℕ)
          → Fits w.latest g w.running j (set_call i (record (w.calls i) { going = n }) w.calls j)
      counted =
          set_call-each (Fits w.latest g w.running) i (record (w.calls i) { going = n }) w.calls
            (record {
              other = λ k. absurd (k latest);
              mine = λ k. omega (arith, (x.fits i).mine latest, e, h);
              settled = λ k. absurd (omega (arith, (x.fits i).settled k, e));
              entering = (x.fits i).entering;
              roused = λ p k. absurd (omega (arith, (x.fits i).roused p k, h));
            })
            (λ j different. record {
              other = (x.fits j).other;
              mine = λ k. absurd (different (some-injective _ _ (sym latest ∙ k)));
              settled = (x.fits j).settled;
              entering = (x.fits j).entering;
              roused = λ p k. absurd (omega (arith, (x.fits j).roused p k, h));
            })

  pub awaits-IsExclusive :
      (i : ℕ)
      → (w.calls i).phase ≡ launched
      → w.group ≡ 0
      → IsExclusive
          (record w { calls = set_call i (record (w.calls i) { phase = awaited }) w.calls })
  awaits-IsExclusive i l e = record {
    fits =
        set_call-each (Fits w.latest w.group w.running) i (record (w.calls i) { phase = awaited })
          w.calls
          (record {
            other = (x.fits i).other;
            mine = (x.fits i).mine;
            settled = λ h. quiet w.latest i (x.fits i) e;
            entering = λ h. absurd (cc h);
            roused = λ h k. e;
          })
          (λ j different. x.fits j);
    none_yet = x.none_yet;
    idle = x.idle;
    owned = x.owned;
    locked_quiet = λ h.
        set_call-quiet i (record (w.calls i) { phase = awaited }) w.calls (λ k. cc k)
          (x.locked_quiet h);
    locked_roused = λ h k. e;
    sound = x.sound;
  }

  pub leaves-IsExclusive :
      (i : ℕ) (a : (w.calls i).phase ≡ awaited) (unlocked : w.lock ≡ free)
      → IsCalm {w = w} (leaves i a unlocked)
      → IsExclusive (record w {
        running = false;
        calls = set_call i (record (w.calls i) { phase = returned }) w.calls;
      })
  leaves-IsExclusive i a unlocked calm = record {
    fits =
        set_call-each (Fits w.latest w.group false) i (record (w.calls i) { phase = returned })
          w.calls
          (record {
            other = (x.fits i).other;
            mine = (x.fits i).mine;
            settled = λ h. going_none;
            entering = λ h. absurd (cc h);
            roused = λ h k. absurd (cc h);
          })
          (λ j different. record {
            other = (x.fits j).other;
            mine = (x.fits j).mine;
            settled = (x.fits j).settled;
            entering = λ h. absurd (not_entering j h different);
            roused = (x.fits j).roused;
          });
    none_yet = x.none_yet;
    idle = λ h k. group_empty w.latest refl;
    owned = x.owned;
    locked_quiet = λ h. absurd (h unlocked);
    locked_roused = λ h k. absurd (h unlocked);
    sound = x.sound;
  }
    where
      going_none : (w.calls i).going ≡ 0
      going_none = (x.fits i).settled (λ h. cc (a, h))

      not_entering : (j : ℕ) → (w.calls j).phase ≡ entered → i ≢ j → ⊥
      not_entering j h different = elim (calm j ((x.fits j).entering h).0) [
        | inl same ↦ different (sym same)
        | inr back ↦ cc (h, back)
      ]

      group_empty : (o : Option ℕ) → w.latest ≡ o → w.group ≡ 0
      group_empty none e = x.none_yet e
      group_empty (some c) e = elim (calm c e) [
        | inl same ↦ (x.fits i).mine (e ∙ ap some same) ∙ going_none
        | inr back ↦ (x.fits c).mine e ∙ (x.fits c).settled (λ h. cc (back, h))
      ]

  pub stops-IsExclusive :
      (b : Bool)
      → NoneEntering w
      → IsExclusive (record w {
        running = false;
        lock = stopping;
        lock_wait = arriving;
        calls = if b then cancel_call w.latest w.calls else w.calls;
      })
  stops-IsExclusive b calm = record {
    fits = by_test b;
    none_yet = x.none_yet;
    idle = λ h k. absurd (k refl);
    owned = x.owned;
    locked_quiet = λ h. quiet_by_test b;
    locked_roused = λ h k. absurd (cc k);
    sound = x.sound;
  }
    where
      halted : (j : ℕ) → Fits w.latest w.group false j (w.calls j)
      halted j = record {
        other = (x.fits j).other;
        mine = (x.fits j).mine;
        settled = (x.fits j).settled;
        entering = λ h. absurd (calm j h);
        roused = (x.fits j).roused;
      }

      by_test :
          (b : Bool) (j : ℕ)
          → Fits w.latest w.group false j ((if b then cancel_call w.latest w.calls else w.calls) j)
      by_test true = Fits-cancel_call w.latest w.latest w.calls halted
      by_test false = halted

      quiet_by_test :
          (b : Bool) (j : ℕ)
          → ((if b then cancel_call w.latest w.calls else w.calls) j).phase ≢ entered
      quiet_by_test true = cancel_call-quiet w.latest w.calls calm
      quiet_by_test false = calm

  pub sleeps-IsExclusive : (i : ℕ) → IsExclusive (sleep i w)
  sleeps-IsExclusive i = record {
    fits =
        set_call-each (Fits w.latest w.group w.running) i (record (w.calls i) { wait = sleeping })
          w.calls (Fits-wait sleeping (x.fits i) (λ h k. absurd (cc k))) (λ j different. x.fits j);
    none_yet = x.none_yet;
    idle = x.idle;
    owned = x.owned;
    locked_quiet = λ h.
        set_call-quiet i (record (w.calls i) { wait = sleeping }) w.calls (x.locked_quiet h i)
          (x.locked_quiet h);
    locked_roused = x.locked_roused;
    sound = x.sound;
  }
