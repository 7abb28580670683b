-- ===== src/Client/Sharing.antt =====
-- Goroutines that share a client (client/exe/client.go): the lock `mu`, and who reads whose answer.
-- The server answers requests in the order in which they are sent.
use ade_ctld.Common.{nat_eq}
use ade_ctld.Common.{
  ==_iff, Bool-cases, List, Option, [], ap, false, if◌then◌else◌, inl, inr, none, refl, some, subst,
  sym, true, ℕ, ◌++◌, ◌==◌, ◌∙◌, ◌∷◌, ◌≡◌, ◌≢◌, ◌⊎◌,
}

-- What a call does behind sending: `List`, `Run` and most others hold the lock and read the answer;
-- `SetFilterName` gives the lock back and reads; `SendCommand` gives it back, and the answer is left.
pub data Kind : Type 0 where
  holds lets_go leaves_answer : Kind

-- A call: it has not begun; it has sent its request and holds the lock; it has sent its request and
-- given the lock back; it has read the answer to the request of some call; or it has returned
-- without one.
pub data Progress : Type 0 where
  before : Progress
  locked : Progress
  unlocked : Progress
  answered : ℕ → Progress
  gone : Progress

-- A client: who holds the lock, whose requests the server has still to answer or whose answers are
-- still to be read, in their order, and the calls.
pub record SharedClient : Type 0 where
  pub holder : Option ℕ
  pub pending : List ℕ
  pub progress : ℕ → Progress

abbrev pub unused : SharedClient
unused = record { holder = none; pending = []; progress = λ i. before }

abbrev pub set_progress : ℕ → Progress → (ℕ → Progress) → ℕ → Progress
set_progress i p progress j = if i == j then p else progress j

-- The steps of calls. Sending may fail: no request is complete then, and the call gives the lock back
-- and returns the error. Reading may fail too: what is left of the answer stays to be read.
pub data ClientStep (kind : ℕ → Kind) (w : SharedClient) : SharedClient → Type 0 where
  sends :
      (i : ℕ)
      → w.progress i ≡ before
      → w.holder ≡ none
      → ClientStep kind w (record {
        holder = some i;
        pending = w.pending ++ i ∷ [];
        progress = set_progress i locked w.progress;
      })
  fails_to_send :
      (i : ℕ)
      → w.progress i ≡ before
      → w.holder ≡ none
      → ClientStep kind w (record w { progress = set_progress i gone w.progress })
  leaves_unread :
      (i : ℕ)
      → kind i ≡ leaves_answer
      → w.progress i ≡ locked
      → ClientStep kind w (record w { holder = none; progress = set_progress i gone w.progress })
  fails_to_read :
      (i : ℕ)
      → kind i ≡ holds
      → w.progress i ≡ locked
      → ClientStep kind w (record w { holder = none; progress = set_progress i gone w.progress })
  fails_to_read_unlocked :
      (i : ℕ)
      → w.progress i ≡ unlocked
      → ClientStep kind w (record w { progress = set_progress i gone w.progress })
  gives_back :
      (i : ℕ)
      → kind i ≡ lets_go
      → w.progress i ≡ locked
      → ClientStep kind w
          (record w { holder = none; progress = set_progress i unlocked w.progress })
  reads :
      (i j : ℕ) {rest : List ℕ}
      → kind i ≡ holds
      → w.progress i ≡ locked
      → w.pending ≡ j ∷ rest
      → ClientStep kind w (record {
        holder = none;
        pending = rest;
        progress = set_progress i (answered j) w.progress;
      })
  reads_unlocked :
      (i j : ℕ) {rest : List ℕ}
      → w.progress i ≡ unlocked
      → w.pending ≡ j ∷ rest
      → ClientStep kind w
          (record w { pending = rest; progress = set_progress i (answered j) w.progress })

pub data ClientSteps (kind : ℕ → Kind) (w : SharedClient) : SharedClient → Type 0 where
  no_step : ClientSteps kind w w
  one_more_step :
      {v t : SharedClient} → ClientSteps kind w v → ClientStep kind v t → ClientSteps kind w t

-- no call fails
abbrev pub Succeeds : {kind : ℕ → Kind} {w v : SharedClient} → ClientStep kind w v → Type 0
Succeeds (sends i b h) = Unit
Succeeds (fails_to_send i b h) = ⊥
Succeeds (leaves_unread i k l) = Unit
Succeeds (fails_to_read i k l) = ⊥
Succeeds (fails_to_read_unlocked i u) = ⊥
Succeeds (gives_back i k l) = Unit
Succeeds (reads i j k l p) = Unit
Succeeds (reads_unlocked i j u p) = Unit

abbrev pub AllSucceed : {kind : ℕ → Kind} {w v : SharedClient} → ClientSteps kind w v → Type 0
AllSucceed no_step = Unit
AllSucceed (one_more_step xs x) = AllSucceed xs × Succeeds x

-- Nobody waits for an answer but the call that holds the lock.
data IsOrderly (w : SharedClient) : Type 0 where
  at_rest :
      w.pending ≡ []
      → ((i : ℕ) → (w.progress i ≡ before) ⊎ (w.progress i ≡ answered i))
      → IsOrderly w
  one_call :
      (h : ℕ)
      → w.pending ≡ h ∷ []
      → w.holder ≡ some h
      → ((i : ℕ) → h ≢ i → (w.progress i ≡ before) ⊎ (w.progress i ≡ answered i))
      → w.progress h ≡ locked
      → IsOrderly w

module _ (i : ℕ) (p : Progress) (progress : ℕ → Progress) where
  set_progress_self : set_progress i p progress i ≡ p
  set_progress_self = rw ((==_iff i i).1 refl) refl

  set_progress-each :
      (P : ℕ → Progress → Type 0)
      → P i p
      → ((j : ℕ) → i ≢ j → P j (progress j))
      → (j : ℕ) → P j (set_progress i p progress j)
  set_progress-each P h hs j = elim (Bool-cases (i == j)) [
    | inl same ↦ rw same (subst (λ n. P n p) ((==_iff i j).0 same) h)
    | inr other ↦ rw other (hs j (λ e. cc ((==_iff i j).1 e)))
  ]

  set_progress-other : (j : ℕ) → i ≢ j → set_progress i p progress j ≡ progress j
  set_progress-other j h = elim (Bool-cases (i == j)) [
    | inl same ↦ absurd (h ((==_iff i j).0 same))
    | inr other ↦ rw other refl
  ]

-- at the end of a call, or before it
abbrev Settled : ℕ → Progress → Type 0
Settled i p = (p ≡ before) ⊎ (p ≡ answered i)

not-Settled : {i : ℕ} {p q : Progress} → p ≡ q → q ≢ before → q ≢ answered i → Settled i p → ⊥
not-Settled e b a (inl s) = b (sym e ∙ s)
not-Settled e b a (inr s) = a (sym e ∙ s)

-- the holder is the one that is in a call
locked-holder :
    (progress : ℕ → Progress) (h i : ℕ) {p : Progress}
    → ((j : ℕ) → h ≢ j → Settled j (progress j))
    → progress i ≡ p
    → p ≢ before
    → p ≢ answered i
    → h ≡ i
locked-holder progress h i others e b a = elim (Bool-cases (h == i)) [
  | inl same ↦ (==_iff h i).0 same
  | inr other ↦ absurd (not-Settled e b a (others i (λ k. cc ((==_iff h i).1 k))))
]

ClientStep-IsOrderly :
    {kind : ℕ → Kind} {w v : SharedClient} (x : ClientStep kind w v)
    → Succeeds x
    → ((i : ℕ) → kind i ≡ holds)
    → IsOrderly w
    → IsOrderly v
ClientStep-IsOrderly {w = w} (sends i idle free) fine never (at_rest empty settled) =
    one_call i (ap (λ l. l ++ i ∷ []) empty) refl
      (λ j other. rw (set_progress-other i locked w.progress j other) (settled j))
      (set_progress_self i locked w.progress)
ClientStep-IsOrderly (sends i idle free) fine never (one_call h e held others l) =
    absurd (cc (free, held))
ClientStep-IsOrderly (fails_to_send i idle free) fine never o = absurd fine
ClientStep-IsOrderly (fails_to_read i k l) fine never o = absurd fine
ClientStep-IsOrderly (fails_to_read_unlocked i u) fine never o = absurd fine
ClientStep-IsOrderly (leaves_unread i u l) fine never o = absurd (cc (u, never i))
ClientStep-IsOrderly (gives_back i u l) fine never o = absurd (cc (u, never i))
ClientStep-IsOrderly (reads i j u l p) fine never (at_rest empty settled) = absurd (cc (empty, p))
ClientStep-IsOrderly {w = w} (reads i j {rest} u l p) fine never
      (one_call h e held others at_lock) =
    let same : h ≡ i = locked-holder w.progress h i others l (λ k. cc k) (λ k. cc k) in
    let mine : j ≡ i = cc (e, p, same) in
    at_rest (cc (e, p)) (
      set_progress-each i (answered j) w.progress Settled (inr (ap answered mine))
        (λ k other. others k (λ q. other (sym same ∙ q))))
ClientStep-IsOrderly (reads_unlocked i j u p) fine never (at_rest empty settled) =
    absurd (cc (empty, p))
ClientStep-IsOrderly {w = w} (reads_unlocked i j u p) fine never
      (one_call h e held others at_lock) =
    let same : h ≡ i = locked-holder w.progress h i others u (λ k. cc k) (λ k. cc k) in
    absurd (cc (at_lock, u, ap w.progress same))

ClientSteps-IsOrderly :
    {kind : ℕ → Kind} {w : SharedClient} (xs : ClientSteps kind unused w)
    → AllSucceed xs
    → ((i : ℕ) → kind i ≡ holds)
    → IsOrderly w
ClientSteps-IsOrderly no_step fine never = at_rest refl (λ i. inl refl)
ClientSteps-IsOrderly (one_more_step xs x) (fines, fine) never =
    ClientStep-IsOrderly x fine never (ClientSteps-IsOrderly xs fines never)

own_answer : {w : SharedClient} → IsOrderly w → (i j : ℕ) → w.progress i ≡ answered j → j ≡ i
own_answer {w = w} (at_rest empty settled) i j e = by_case (settled i)
  where
    by_case : Settled i (w.progress i) → j ≡ i
    by_case (inl s) = absurd (cc (s, e))
    by_case (inr s) = cc (s, e)
own_answer {w = w} (one_call h p held others l) i j e = by_test (Bool-cases (h == i))
  where
    by_case : Settled i (w.progress i) → j ≡ i
    by_case (inl s) = absurd (cc (s, e))
    by_case (inr s) = cc (s, e)

    by_test : ((h == i) ≡ true) ⊎ ((h == i) ≡ false) → j ≡ i
    by_test (inl same) = absurd (cc (l, e, ap w.progress ((==_iff h i).0 same)))
    by_test (inr other) = by_case (others i (λ k. cc ((==_iff h i).1 k)))

-- Calls that hold the lock until they have read get their own answers, however the calls of several
-- goroutines interleave, if none of the calls on the client fails to send or to read, and none is
-- one of `SetFilterName` or of `SendCommand` alone.
pub locked-own_answer :
    {kind : ℕ → Kind} {w : SharedClient} (xs : ClientSteps kind unused w)
    → AllSucceed xs
    → ((i : ℕ) → kind i ≡ holds)
    → (i j : ℕ) → w.progress i ≡ answered j
    → j ≡ i
locked-own_answer xs fine never = own_answer (ClientSteps-IsOrderly xs fine never)
