-- ===== src/RunIndex/Laws.antt =====
-- The bucket as a map from paths to counts.
use ade_ctld.Text.{bytes_eq}
use ade_ctld.Common.{
  Bool-cases, List, Option, [], any, ap, arith, if◌then◌else◌, inl, inr, insert, lookup,
  lookup-insert, none, refl, some, sym, true, uint64_modulus, ℕ, ◌%◌, ◌+◌, ◌<◌, ◌∙◌, ◌∷◌, ◌≡◌, ◌≢◌,
  ◌⊎◌,
}
use ade_ctld.Text.{Bytes, str_eq, str_eq_iff}
use ade_ctld.RunIndex.{
  Bolt, Updated, failed, get_frequencies, increment, panicked, put_uint64, stored_count, uint64,
  updated,
}
use ade_ctld.RunIndex.{frequencies_from, store_count}

-- A count below 2^64 is read back from its eight bytes.
pub uint64-put_uint64 : (n : ℕ) → n < uint64_modulus → uint64 (put_uint64 n) ≡ some n
unfolding uint64 put_uint64
uint64-put_uint64 n h = ap some (omega arith)

module _ (bolt : Bolt) where
  open bolt use {Db, has_bucket, get, put, has_bucket-put, get-put}

  abbrev pub or_zero : Option ℕ → ℕ
  or_zero none = 0
  or_zero (some n) = n

  -- how often a path has been run
  unfoldable pub run_count : Db → Bytes → ℕ
  unfolding or_zero stored_count
  run_count db path = or_zero (stored_count (get db path))

  -- The bucket is there, and each of its values is a count.
  pub record IsRunIndex (db : Db) : Type 0 where
    pub bucket : has_bucket db ≡ true
    pub counts : (path : Bytes) → stored_count (get db path) ≡ some (run_count db path)

  increment-updated :
      (db db' : Db) (path : Bytes)
      → IsRunIndex db
      → increment bolt db path ≡ updated db'
      → put db path (put_uint64 ((run_count db path + 1) % uint64_modulus)) ≡ inl db'
  unfolding increment store_count
  increment-updated db db' path v h =
      invert (put db path (put_uint64 ((run_count db path + 1) % uint64_modulus))) opened
    where
      stored : increment bolt db path ≡ store_count bolt db path (some (run_count db path))
      stored = cc (v.bucket, v.counts path)

      opened : store_count bolt db path (some (run_count db path)) ≡ updated db'
      opened = sym stored ∙ h

      invert :
          (r : Db ⊎ Bytes)
          → (elim r [ inl d ↦ updated d | inr why ↦ failed why ]) ≡ updated db'
          → r ≡ inl db'
      invert (inl d) e = cc
      invert (inr why) e = absurd (cc)

  -- On a well-formed bucket `Increment` does not panic.
  pub increment-ne-panicked :
      (db : Db) (path : Bytes) → IsRunIndex db → increment bolt db path ≢ panicked
  unfolding increment store_count
  increment-ne-panicked db path v h =
      cases (put db path (put_uint64 ((run_count db path + 1) % uint64_modulus))) (sym stored ∙ h)
    where
      stored : increment bolt db path ≡ store_count bolt db path (some (run_count db path))
      stored = cc (v.bucket, v.counts path)

      cases :
          (r : Db ⊎ Bytes)
          → ◌≡◌ {A = Updated Db} (elim r [ inl d ↦ updated d | inr why ↦ failed why ]) panicked
          → ⊥
      cases (inl d) e = cc
      cases (inr why) e = cc

  run_count_of :
      (db : Db) (path : Bytes) {n : ℕ} → stored_count (get db path) ≡ some n → run_count db path ≡ n
  unfolding run_count
  run_count_of db path h = ap or_zero h

  counted :
      (db db' : Db) (path : Bytes)
      → IsRunIndex db
      → increment bolt db path ≡ updated db'
      → (j : Bytes)
      → stored_count (get db' j)
        ≡ some (if str_eq path j then (run_count db path + 1) % uint64_modulus else run_count db j)
  unfolding stored_count
  counted db db' path v h j =
      let m = (run_count db path + 1) % uint64_modulus in
      let written = increment-updated db db' path v h in
      elim (Bool-cases (str_eq path j)) [
        | inl same ↦
            ap stored_count (get-put db db' path j (put_uint64 m) written)
            ∙ rw same (uint64-put_uint64 m (omega arith))
        | inr other ↦
            ap stored_count (get-put db db' path j (put_uint64 m) written) ∙ rw other (v.counts j)
      ]

  -- A successful `Increment` adds one, modulo 2^64, to the count of its path and leaves every other
  -- count as it was; the bucket stays well-formed.
  pub increment_lem :
      (db db' : Db) (path : Bytes)
      → IsRunIndex db
      → increment bolt db path ≡ updated db'
      → ((j : Bytes)
          → run_count db' j
            ≡ (if str_eq path j then (run_count db path + 1) % uint64_modulus else run_count db j))
        × IsRunIndex db'
  increment_lem db db' path v h =
      let written = increment-updated db db' path v h in
      let count = λ (j : Bytes). run_count_of db' j (counted db db' path v h j) in
      (
        count,
        record {
          bucket = has_bucket-put db db' path _ written ∙ v.bucket;
          counts = λ j. counted db db' path v h j ∙ ap some (sym (count j));
        },
      )

  -- the map that the loop of `GetFrequencies` comes to
  abbrev Tallies : Db → List Bytes → List (Bytes × ℕ) → List (Bytes × ℕ) → Type 0
  Tallies db paths acc fs =
      (j : Bytes)
      → lookup j fs ≡ (if any (λ p. str_eq p j) paths then some (run_count db j) else lookup j acc)

  Tallies-cons :
      (db : Db) (path : Bytes) (paths : List Bytes) (acc fs : List (Bytes × ℕ))
      → Tallies db paths (insert path (run_count db path) acc) fs
      → Tallies db (path ∷ paths) acc fs
  Tallies-cons db path paths acc fs h j =
      ground (arith, h j, lookup-insert path j (run_count db path) acc, str_eq_iff path j)

  frequencies_from_lem :
      (db : Db) (paths : List Bytes) (acc : List (Bytes × ℕ))
      → IsRunIndex db
      → (fs : List (Bytes × ℕ)) × (frequencies_from bolt db paths acc ≡ some fs)
        × Tallies db paths acc fs
  unfolding frequencies_from
  frequencies_from_lem db [] acc v = (acc, refl, λ j. refl)
  frequencies_from_lem db (path ∷ paths) acc v =
      let (fs, e, h) = frequencies_from_lem db paths (insert path (run_count db path) acc) v in
      (fs, rw (v.counts path, frequencies_from) e, Tallies-cons db path paths acc fs h)

  -- On a well-formed bucket `GetFrequencies` does not panic, and its map gives each of the paths
  -- its count.
  pub get_frequencies_lem :
      (db : Db) (paths : List Bytes)
      → IsRunIndex db
      → (fs : List (Bytes × ℕ)) × (get_frequencies bolt db paths ≡ some fs)
        × ((j : Bytes) → any (λ p. str_eq p j) paths ≡ true → lookup j fs ≡ some (run_count db j))
  unfolding get_frequencies
  get_frequencies_lem db paths v =
      let (fs, e, h) = frequencies_from_lem db paths [] v in
      (fs, rw v.bucket e, λ j asked. h j ∙ rw asked)
