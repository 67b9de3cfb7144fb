-- ===== src/Cleanup/Permits.antt =====
-- What the rows of the store must say before the engine of internal/cleanup deletes a path, and that
-- the record of a deletion takes nothing of that away.
use baidu_drive_mover.Base.{
  ◌≡◌, refl, sym, subst, ◌∙◌, true, Bool-cases, inl, inr, some, ok, if◌then◌else◌, All, All-map,
  first_where, first_where-update, update_where, Bool, arith,
}
use baidu_drive_mover.Text.{Str, str_eq}
use baidu_drive_mover.State.Model.{File}
use baidu_drive_mover.State.Db.{
  Db, CleanupObject, find_object, batch_files_of, is_object, scope_local_cache_file,
  scope_baidu_batch_dir, exec_one, update_objects,
}
use baidu_drive_mover.State.Download.{cache_path_of}
use baidu_drive_mover.State.Cleanup.{
  CleanupBatch, expected_baidu_batch_path, mark_cleaned, mark_cleanup_object_done,
  mark_local_cache_cleanup_done, is_deletable_scope,
}
use baidu_drive_mover.State.Cleanup.Authorized.{IsDeletable, IsAuthorized}
use baidu_drive_mover.State.CleanupRoot.{expected_baidu_task_root_path, unfinished_files}

-- A cache file may be removed: it is the cache file of a file of some batch of the task, which is
-- pending cleanup with a Drive ID, and whose cache row allows the deletion of this very path.
pub record MayRemove (db : Db) (task path : Str) : Type 0 where
  pub batch : Str
  pub id : Str
  pub file : File
  pub in_batch : first_where (λ f. str_eq id f.file_id) (batch_files_of db task batch) ≡ some file
  pub deletable : IsDeletable db task file
  pub exact : path ≡ cache_path_of task id

-- A remote directory may be deleted: it is that of a batch whose files are all pending cleanup with
-- a Drive ID, and whose row allows the deletion of this very path; or it is the task's own root, and
-- no file of the task is unfinished.
pub data MayDelete (db : Db) (task path : Str) : Type 0 where
  batch_directory :
      (batch : Str) (o : CleanupObject)
      → All (IsDeletable db task) (batch_files_of db task batch)
      → find_object task scope_baidu_batch_dir batch db ≡ some o
      → o.cleanup_allowed ≡ true
      → expected_baidu_batch_path task batch ≡ ok path
      → MayDelete db task path
  task_root :
      expected_baidu_task_root_path task ≡ ok path
      → unfinished_files task db ≡ 0
      → MayDelete db task path

-- The batch that is being cleaned, seen against the rows of the store.
pub record IsBeingCleaned (db : Db) (task : Str) (b : CleanupBatch) : Type 0 where
  pub same_task : b.task_id ≡ task
  pub listed : b.files ≡ batch_files_of db task b.batch_id
  pub deletable : All (IsDeletable db task) (batch_files_of db task b.batch_id)
  pub directory : CleanupObject
  pub found : find_object task scope_baidu_batch_dir b.batch_id db ≡ some directory
  pub allowed : directory.cleanup_allowed ≡ true
  pub exact : expected_baidu_batch_path task b.batch_id ≡ ok b.baidu_object.object_path

pub IsAuthorized-IsBeingCleaned :
    (db : Db) (task batch : Str) (b : CleanupBatch)
    → IsAuthorized db task batch b
    → IsBeingCleaned db task b
IsAuthorized-IsBeingCleaned db task batch b a =
    let same = sym a.same_batch in
    record {
      same_task = a.same_task;
      listed = subst (λ i. b.files ≡ batch_files_of db task i) same a.listed;
      deletable =
          subst (λ i. All (IsDeletable db task) (batch_files_of db task i)) same
            (subst (All (IsDeletable db task)) a.listed a.deletable);
      directory = b.baidu_object;
      found =
          subst (λ i. find_object task scope_baidu_batch_dir i db ≡ some b.baidu_object) same
            a.baidu_found;
      allowed = a.baidu_allowed;
      exact =
          subst (λ i. expected_baidu_batch_path task i ≡ ok b.baidu_object.object_path) same
            a.baidu_exact;
    }

module _ (now : Str) (p : CleanupObject → Bool) (db : Db) where
  abbrev marked : Db
  marked = record db { owned_objects = update_where p (mark_cleaned now) db.owned_objects }

  find_object-marked :
      (task scope id : Str) {o : CleanupObject}
      → find_object task scope id db ≡ some o
      → (o' : CleanupObject) × (find_object task scope id marked ≡ some o')
        × (o'.cleanup_allowed ≡ o.cleanup_allowed)
        × (o'.object_path ≡ o.object_path)
  unfolding find_object is_object
  find_object-marked task scope id {o} h = (
    if p o then mark_cleaned now o else o,
    first_where-update (is_object task scope id) p (mark_cleaned now) db.owned_objects (λ x. refl)
        h,
    ground arith,
    ground arith,
  )

  IsDeletable-marked : (task : Str) (f : File) → IsDeletable db task f → IsDeletable marked task f
  IsDeletable-marked task f d =
      let (o, found, allowed, path) =
        find_object-marked task scope_local_cache_file f.file_id d.found in
      record {
        pending = d.pending;
        on_drive = d.on_drive;
        object = o;
        found = found;
        allowed = allowed ∙ d.allowed;
        exact = path ∙ d.exact;
      }

  IsBeingCleaned-marked :
      (task : Str) (b : CleanupBatch) → IsBeingCleaned db task b → IsBeingCleaned marked task b
  unfolding batch_files_of
  IsBeingCleaned-marked task b c =
      let (o, found, allowed, _) =
        find_object-marked task scope_baidu_batch_dir b.batch_id c.found in
      record {
        same_task = c.same_task;
        listed = c.listed;
        deletable =
            All-map _ _ (batch_files_of db task b.batch_id) (IsDeletable-marked task) c.deletable;
        directory = o;
        found = found;
        allowed = allowed ∙ c.allowed;
        exact = c.exact;
      }

-- The record that a cache file is gone.
pub mark_local_cache_cleanup_done-IsBeingCleaned :
    (task : Str) (b : CleanupBatch) (t id now : Str) (db : Db)
    → IsBeingCleaned db task b
    → IsBeingCleaned (mark_local_cache_cleanup_done t id now db).0 task b
unfolding mark_local_cache_cleanup_done mark_cleanup_object_done exec_one update_objects
mark_local_cache_cleanup_done-IsBeingCleaned task b t id now db c =
    elim (Bool-cases (is_deletable_scope scope_local_cache_file)) [
      | inl yes_ ↦ rw yes_ (IsBeingCleaned-marked now _ db task b c)
      | inr no_ ↦ rw no_ c
    ]
