-- ===== src/Server/Lifecycle.antt =====
-- `Start` and `Stop` of server/server.go: the loop that accepts connections.
use ade_ctld.Common.{
  All, Bool, List, Option, [], ap, false, if◌then◌else◌, none, not, refl, some, true, ℕ, ◌++◌, ◌∷◌,
  ◌≡◌,
}

-- What `Accept` returns.
pub data Accepted : Type 0 where
  connection : ℕ → Accepted
  accept_error : Accepted

-- What a round of the loop meets: whether the context has been cancelled, what `Accept` returns,
-- and whether `running` is still set then. `Stop` takes `running` back and closes the listener.
pub record Round : Type 0 where
  pub is_cancelled : Bool
  pub accepted : Accepted
  pub running : Bool

-- what `Start` returns
pub data Returned : Type 0 where
  returned_nil : Returned
  returned_cancelled : Returned

-- The connections that are handled, and what `Start` returns, if it does within the rounds.
pub record Serving : Type 0 where
  pub handled : List ℕ
  pub returned : Option Returned

also_handled : ℕ → Serving → Serving
also_handled c s = record { handled = c ∷ s.handled; returned = s.returned }

-- `Start`, over the rounds of its loop
unfoldable pub start : List Round → Serving
unfolding also_handled
start [] = record { handled = []; returned = none }
start (r ∷ rs) =
    let rest = start rs in
    if r.is_cancelled
    then record { handled = []; returned = some returned_cancelled }
    else elim r.accepted [
      | connection c ↦ also_handled c rest
      | accept_error ↦
          if not r.running then record { handled = []; returned = some returned_nil } else rest
    ]

-- the connections of rounds
unfoldable pub accepted_in : List Round → List ℕ
accepted_in [] = []
accepted_in (r ∷ rs) = elim r.accepted [
  | connection c ↦ c ∷ accepted_in rs
  | accept_error ↦ accepted_in rs
]

-- a round before the context is cancelled and the server is stopped
pub record IsServing (r : Round) : Type 0 where
  pub live : r.is_cancelled ≡ false
  pub still_running : r.running ≡ true

abbrev pub stopped_round : Round
stopped_round = record { is_cancelled = false; accepted = accept_error; running = false }

-- `Start` handles every connection that is accepted before `Stop`, in order, errors of `Accept` in
-- between notwithstanding, and returns without an error at the first round behind `Stop`.
pub start-stopped_round :
    (rs more : List Round)
    → All IsServing rs
    → start (rs ++ stopped_round ∷ more)
      ≡ record { handled = accepted_in rs; returned = some returned_nil }
unfolding start accepted_in
start-stopped_round [] more h = refl
start-stopped_round (r ∷ rs) more (h, hs) =
    rw (h.live, start) (by_accepted (start-stopped_round rs more hs) r.accepted)
  where
    by_accepted :
        start (rs ++ stopped_round ∷ more)
          ≡ record { handled = accepted_in rs; returned = some returned_nil }
        → (a : Accepted)
        → (elim a [
          | connection c ↦ also_handled c (start (rs ++ stopped_round ∷ more))
          | accept_error ↦
              if not r.running
              then record { handled = []; returned = some returned_nil }
              else start (rs ++ stopped_round ∷ more)
        ])
          ≡ record {
            handled = elim a [ connection c ↦ c ∷ accepted_in rs | accept_error ↦ accepted_in rs ];
            returned = some returned_nil;
          }
    by_accepted e (connection c) = unfold also_handled in ap (also_handled c) e
    by_accepted e accept_error = rw h.still_running e
