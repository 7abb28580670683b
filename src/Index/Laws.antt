-- ===== src/Index/Laws.antt =====
-- The identifiers that `Add` of internal/indexer/types.go hands out.
use ade_ctld.Common.{nat_eq}
use ade_ctld.Common.{
  All, All-append, EachPair, List, [], arith, if◌then◌else◌, insert_new, length-append, lookup,
  lookup-insert, negsuc, none, pos, refl, some, sym, ℕ, ℤ, ◌++◌, ◌+◌, ◌<◌, ◌==◌, ◌∙◌, ◌∷◌, ◌≡◌, ◌≢◌,
  ◌≤◌,
}
use ade_ctld.Index.{Entry, Index, add, count, get, new_index, values}

-- the entry stands under its own identifier, which is one of those below `n`
abbrev pub KeyedBelow : ℕ → ℕ × Entry → Type 0
KeyedBelow n p = (p.1.id ≡ p.0) × (1 ≤ p.0) × (p.0 < n)

abbrev pub OtherKey : ℕ × Entry → ℕ × Entry → Type 0
OtherKey p q = p.0 ≢ q.0

-- Each entry stands under its own identifier, which has been handed out, and no two entries share
-- one.
pub record IsIndex (idx : Index) : Type 0 where
  pub positive : 1 ≤ idx.next_id
  pub keyed : All (KeyedBelow idx.next_id) idx.entries
  pub distinct : EachPair OtherKey idx.entries

abbrev Fresh : ℕ → ℕ × Entry → Type 0
Fresh n p = p.0 < n

All-keyed-Fresh : (n : ℕ) (m : List (ℕ × Entry)) → All (KeyedBelow n) m → All (Fresh n) m
All-keyed-Fresh n [] h = tt
All-keyed-Fresh n (p ∷ m) ((_, _, lt), hs) = (lt, All-keyed-Fresh n m hs)

lookup-Fresh : (n : ℕ) (m : List (ℕ × Entry)) → All (Fresh n) m → lookup n m ≡ none
unfolding lookup
lookup-Fresh n [] h = refl
lookup-Fresh n ((k, e) ∷ m) (lt, h) = ground (arith, lookup-Fresh n m h)

-- a new pair stays away from the old ones
EachPair-concat :
    (n : ℕ) (e : Entry) (m : List (ℕ × Entry))
    → All (Fresh n) m
    → EachPair OtherKey m
    → EachPair OtherKey (m ++ (n, e) ∷ [])
EachPair-concat n e [] h d = (tt, tt)
EachPair-concat n e (p ∷ m) (lt, h) (dp, d) = (
  All-append (λ (q : ℕ × Entry). p.0 ≢ q.0) m ((n, e) ∷ []) dp (omega arith, tt),
  EachPair-concat n e m h d,
)

keyed_later : (n : ℕ) (m : List (ℕ × Entry)) → All (KeyedBelow n) m → All (KeyedBelow (n + 1)) m
keyed_later n [] h = tt
keyed_later n (p ∷ m) ((e, one, lt), hs) = ((e, one, omega arith), keyed_later n m hs)

module _ (entry : Entry) {idx : Index} (v : IsIndex idx) where
  abbrev pub given : Entry
  given = record entry { id = idx.next_id }

  pub entries-add : (add entry idx).0.entries ≡ idx.entries ++ (idx.next_id, given) ∷ []
  unfolding add
  entries-add =
      insert_new idx.next_id given idx.entries
        (lookup-Fresh idx.next_id idx.entries (All-keyed-Fresh idx.next_id idx.entries v.keyed))

  next_id-add : (add entry idx).0.next_id ≡ idx.next_id + 1
  unfolding add
  next_id-add = refl

  -- Adding an entry keeps the index well-formed.
  pub add-IsIndex : IsIndex (add entry idx).0
  add-IsIndex = record {
    positive = rw next_id-add (omega arith);
    keyed =
        rw (entries-add, next_id-add)
          (All-append _ idx.entries ((idx.next_id, given) ∷ [])
            (keyed_later idx.next_id idx.entries v.keyed) ((refl, v.positive, omega arith), tt));
    distinct = rw entries-add (
        EachPair-concat idx.next_id given idx.entries
          (All-keyed-Fresh idx.next_id idx.entries v.keyed) v.distinct);
  }

  -- Adding an entry adds one to the count.
  pub count-add : count (add entry idx).0 ≡ count idx + 1
  unfolding count
  count-add = rw entries-add (length-append idx.entries ((idx.next_id, given) ∷ []))

  -- The entry that was added is found under the identifier that `Add` returns; what is found under
  -- any other identifier is what was found before.
  pub get-add :
      (j : ℤ)
      → get j (add entry idx).0 ≡ (elim j [
        | pos n ↦ if (add entry idx).1 == n then some given else get (pos n) idx
        | negsuc n ↦ none
      ])
  unfolding get add
  get-add (pos n) = lookup-insert idx.next_id n given idx.entries
  get-add (negsuc n) = refl

pub new_index-IsIndex : IsIndex new_index
new_index-IsIndex = omega arith

-- The entries of a well-formed index have different identifiers.
values-DistinctIds :
    (n : ℕ) (m : List (ℕ × Entry))
    → All (KeyedBelow n) m
    → EachPair OtherKey m
    → EachPair (λ (a b : Entry). a.id ≢ b.id) (values m)
unfolding values
values-DistinctIds n [] h d = tt
values-DistinctIds n ((k, e) ∷ m) ((he, _, _), hs) (dk, d) =
    (apart m hs dk, values-DistinctIds n m hs d)
  where
    apart :
        (l : List (ℕ × Entry))
        → All (KeyedBelow n) l
        → All (λ (q : ℕ × Entry). k ≢ q.0) l
        → All (λ (b : Entry). e.id ≢ b.id) (values l)
    apart [] _ _ = tt
    apart ((j, b) ∷ l) ((hb, _, _), hl) (ne, dl) = ((λ eq. ne (sym he ∙ eq ∙ hb)), apart l hl dl)

pub IsIndex-DistinctIds :
    {idx : Index} → IsIndex idx → EachPair (λ (a b : Entry). a.id ≢ b.id) (values idx.entries)
IsIndex-DistinctIds {idx} v = values-DistinctIds idx.next_id idx.entries v.keyed v.distinct
