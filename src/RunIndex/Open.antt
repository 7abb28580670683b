-- ===== src/RunIndex/Open.antt =====
-- `NewRunIndexWithCacheDir` of internal/runindex/runindex.go.
use ade_ctld.Common.{
  Bool-cases, Option, [], if◌then◌else◌, inl, inr, none, refl, some, subst, sym, true, ◌++◌, ◌∙◌,
  ◌≡◌, ◌⊎◌,
}
use ade_ctld.Text.{Bytes, codes, str_eq}
use ade_ctld.RunIndex.{Bolt, stored_count}
use ade_ctld.RunIndex.Laws.{IsRunIndex, or_zero, run_count}

-- What the system and bbolt do while the database is opened; `inr` and `some` are errors.
pub record Disk (bolt : Bolt) : Type 0 where
  pub user_cache : Bytes ⊎ Bytes
  pub join_path : Bytes → Bytes → Bytes
  pub mkdir_all : Bytes → Option Bytes
  pub open_db : Bytes → bolt.Db ⊎ Bytes
  pub create_bucket : bolt.Db → bolt.Db ⊎ Bytes

-- `Close`: the error of closing the database, if there is one
unfoldable pub close_run_index : {Db : Type 0} → (Db → Option Bytes) → Option Db → Option Bytes
close_run_index close_db none = none
close_run_index close_db (some db) = close_db db

module _ (bolt : Bolt) (disk : Disk bolt) where
  with_bucket : bolt.Db ⊎ Bytes → bolt.Db ⊎ Bytes
  with_bucket (inl db) = inl db
  with_bucket (inr why) = inr (codes "failed to create bucket: " ++ why)

  with_db : bolt.Db ⊎ Bytes → bolt.Db ⊎ Bytes
  unfolding with_bucket
  with_db (inl db) = with_bucket (disk.create_bucket db)
  with_db (inr why) = inr (codes "failed to open database: " ++ why)

  in_dir : Bytes → Option Bytes → bolt.Db ⊎ Bytes
  unfolding with_db
  in_dir dir (some why) = inr (codes "failed to create cache directory: " ++ why)
  in_dir dir none = with_db (disk.open_db (disk.join_path dir (codes "exe-ctld.run-index")))

  in_cache : Bytes ⊎ Bytes → bolt.Db ⊎ Bytes
  unfolding in_dir
  in_cache (inr why) = inr (codes "failed to get user cache directory: " ++ why)
  in_cache (inl cache_dir) =
      let dir = disk.join_path cache_dir (codes "ade") in in_dir dir (disk.mkdir_all dir)

  -- `NewRunIndexWithCacheDir`
  unfoldable pub new_run_index_with_cache_dir : Bytes → bolt.Db ⊎ Bytes
  unfolding in_cache
  new_run_index_with_cache_dir cache_dir =
      in_cache (if str_eq cache_dir [] then disk.user_cache else inl cache_dir)

  -- `NewRunIndex`
  unfoldable pub new_run_index : bolt.Db ⊎ Bytes
  unfolding new_run_index_with_cache_dir
  new_run_index = new_run_index_with_cache_dir []

  -- What bbolt says of `CreateBucketIfNotExists`: the bucket is then there, with the values that it
  -- had, or with none if it is new.
  pub record CreatesBucket : Type 0 where
    pub creates : (db db' : bolt.Db) → disk.create_bucket db ≡ inl db' → bolt.has_bucket db' ≡ true
    pub keeps_values :
        (db db' : bolt.Db) (path : Bytes)
        → disk.create_bucket db ≡ inl db'
        → bolt.get db' path ≡ (if bolt.has_bucket db then bolt.get db path else none)

  -- A file whose bucket, if there is one, is well-formed.
  pub record OpensFine : Type 0 where
    pub fine :
        (file : Bytes) (db : bolt.Db)
        → disk.open_db file ≡ inl db
        → bolt.has_bucket db ≡ true
        → IsRunIndex bolt db

  created-IsRunIndex :
      (db db' : bolt.Db)
      → CreatesBucket
      → (bolt.has_bucket db ≡ true → IsRunIndex bolt db)
      → disk.create_bucket db ≡ inl db'
      → IsRunIndex bolt db'
  unfolding run_count stored_count
  created-IsRunIndex db db' law old e = record {
    bucket = law.creates db db' e;
    counts = λ path.
        subst (λ o. stored_count o ≡ some (or_zero bolt (stored_count o)))
          (sym (law.keeps_values db db' path e))
          (elim (Bool-cases (bolt.has_bucket db)) [
            | inl old_bucket ↦ rw old_bucket ((old old_bucket).counts path)
            | inr new_bucket ↦ rw new_bucket refl
          ]);
  }

  module _ (law : CreatesBucket) (opens : OpensFine) (db : bolt.Db) where
    with_bucket-IsRunIndex :
        (file : Bytes) (old : bolt.Db) (r : bolt.Db ⊎ Bytes)
        → disk.open_db file ≡ inl old
        → disk.create_bucket old ≡ r
        → with_bucket r ≡ inl db
        → IsRunIndex bolt db
    unfolding with_bucket
    with_bucket-IsRunIndex file old (inl new) opened created e =
        created-IsRunIndex old db law (opens.fine file old opened) (created ∙ e)
    with_bucket-IsRunIndex file old (inr why) opened created e = absurd (cc e)

    with_db-IsRunIndex :
        (file : Bytes) (r : bolt.Db ⊎ Bytes)
        → disk.open_db file ≡ r
        → with_db r ≡ inl db
        → IsRunIndex bolt db
    unfolding with_db
    with_db-IsRunIndex file (inl old) opened e =
        with_bucket-IsRunIndex file old (disk.create_bucket old) opened refl e
    with_db-IsRunIndex file (inr why) opened e = absurd (cc e)

    in_dir-IsRunIndex :
        (dir : Bytes) (r : Option Bytes) → in_dir dir r ≡ inl db → IsRunIndex bolt db
    unfolding in_dir
    in_dir-IsRunIndex dir none e =
        with_db-IsRunIndex (disk.join_path dir (codes "exe-ctld.run-index")) _ refl e
    in_dir-IsRunIndex dir (some why) e = absurd (cc e)

    in_cache-IsRunIndex : (r : Bytes ⊎ Bytes) → in_cache r ≡ inl db → IsRunIndex bolt db
    unfolding in_cache
    in_cache-IsRunIndex (inl cache_dir) e =
        let dir = disk.join_path cache_dir (codes "ade") in
        in_dir-IsRunIndex dir (disk.mkdir_all dir) e
    in_cache-IsRunIndex (inr why) e = absurd (cc e)

    -- A database that `NewRunIndex` returns is well-formed, if each file that can be opened has a
    -- well-formed bucket or none at all.
    pub new_run_index-IsRunIndex : new_run_index ≡ inl db → IsRunIndex bolt db
    unfolding new_run_index new_run_index_with_cache_dir
    new_run_index-IsRunIndex e =
        in_cache-IsRunIndex (if str_eq [] [] then disk.user_cache else inl []) e
