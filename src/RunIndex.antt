-- ===== src/RunIndex.antt =====
-- internal/runindex/runindex.go: how often each path has been run, kept in a bucket of bbolt.
-- bbolt is a library: the bucket is a parameter with the laws that the program relies on.
pub mod Laws
pub mod Open
use ade_ctld.Common.{
  Bool, List, Option, [], if◌then◌else◌, inl, inr, insert, none, some, uint64_modulus, ℕ, ◌%◌, ◌*◌,
  ◌+◌, ◌/◌, ◌^◌, ◌∷◌, ◌≡◌, ◌⊎◌,
}
use ade_ctld.Text.{bytes_eq}
use ade_ctld.Text.{Bytes, codes, str_eq}

-- A bucket inside a transaction that commits. `put` may fail (an empty key, a key or value that is
-- too large, an error of the disk), and the transaction is then rolled back.
pub record Bolt : Type 1 where
  pub Db : Type 0
  pub has_bucket : Db → Bool
  pub get : Db → Bytes → Option Bytes
  pub put : Db → Bytes → Bytes → Db ⊎ Bytes
  pub has_bucket-put :
      (db db' : Db) (k v : Bytes) → put db k v ≡ inl db' → has_bucket db' ≡ has_bucket db
  pub get-put :
      (db db' : Db) (k j v : Bytes)
      → put db k v ≡ inl db'
      → get db' j ≡ (if str_eq k j then some v else get db j)

-- `binary.BigEndian.PutUint64`: the eight bytes of a number below 2^64
unfoldable pub put_uint64 : ℕ → Bytes
put_uint64 n =
    n / 2 ^ 56 % 256
    ∷ n / 2 ^ 48 % 256
    ∷ n / 2 ^ 40 % 256
    ∷ n / 2 ^ 32 % 256
    ∷ n / 2 ^ 24 % 256
    ∷ n / 2 ^ 16 % 256
    ∷ n / 2 ^ 8 % 256
    ∷ n % 256
    ∷ []

-- `binary.BigEndian.Uint64`: `none` is the panic on fewer than eight bytes.
unfoldable pub uint64 : Bytes → Option ℕ
uint64 (a ∷ b ∷ c ∷ d ∷ e ∷ f ∷ g ∷ h ∷ rest) =
    some
      (a * 2 ^ 56 + b * 2 ^ 48 + c * 2 ^ 40 + d * 2 ^ 32 + e * 2 ^ 24 + f * 2 ^ 16 + g * 2 ^ 8 + h)
uint64 _ = none

pub data Updated (Db : Type 0) : Type 0 where
  updated : Db → Updated Db
  failed : Bytes → Updated Db
  panicked : Updated Db

-- The count that a value of the bucket stands for; `none` is a panic.
unfoldable pub stored_count : Option Bytes → Option ℕ
stored_count none = some 0
stored_count (some val) = uint64 val

module _ (bolt : Bolt) where
  open bolt use {Db, has_bucket, get, put}

  unfoldable pub store_count : Db → Bytes → Option ℕ → Updated Db
  store_count db path none = panicked
  store_count db path (some count) =
      elim (put db path (put_uint64 ((count + 1) % uint64_modulus))) [
        | inl db' ↦ updated db'
        | inr why ↦ failed why
      ]

  -- `Increment`
  unfoldable pub increment : Db → Bytes → Updated Db
  unfolding store_count stored_count
  increment db path =
      if has_bucket db
      then store_count db path (stored_count (get db path))
      else failed (codes "bucket run_index not found")

  -- The loop of `GetFrequencies`; `none` is a panic.
  frequencies_from : Db → List Bytes → List (Bytes × ℕ) → Option (List (Bytes × ℕ))
  unfolding stored_count
  frequencies_from db [] frequencies = some frequencies
  frequencies_from db (path ∷ paths) frequencies = elim (stored_count (get db path)) [
    | none ↦ none
    | some n ↦ frequencies_from db paths (insert path n frequencies)
  ]

  -- `GetFrequencies`
  unfoldable pub get_frequencies : Db → List Bytes → Option (List (Bytes × ℕ))
  unfolding frequencies_from
  get_frequencies db paths = if has_bucket db then frequencies_from db paths [] else some []
