-- ===== src/State/Cleanup/Completed.antt =====
-- When CompleteBatchCleanup (internal/state/cleanup_store.go) marks the files of a batch as done.
use baidu_drive_mover.Base.{
  first_where, some, refl, ◌≡◌, sym, ap, ◌∙◌, Bool, true, false, ◌&&◌, ◌||◌, not, List, [], ok,
  arith, ◌==◌, ==→eq, All, All-map, is_empty, count_where, count_where-none, update_where, ok-eq,
}
use baidu_drive_mover.Text.{Str}
use baidu_drive_mover.State.Safety.Authorize.{found_in_batch}
use baidu_drive_mover.State.Rows.{find-update_same}
use baidu_drive_mover.State.Safety.Gate.{batch_files-All}
use baidu_drive_mover.State.Model.{File, FileStatus}
use baidu_drive_mover.State.Db.{
  find_file, is_file, in_batch, Db, CleanupObject, is_object, is_file_of_batch, batch_files_of,
  is_batch_file, update_files, scope_baidu_batch_dir,
}
use baidu_drive_mover.State.Invert.{get_then, guard_then, lift_then, in_tx-ok, guard_lem}
use baidu_drive_mover.State.Quiet.{>>=-eq-ok}
use baidu_drive_mover.State.Cleanup.{
  is_cleanup_pending, is_local_object_of_batch, is_open, validate_batch_cleanup_completeness,
  complete_batch_cleanup, in_batch,
}

-- The rows of a batch's cache files and of its directory.
abbrev pub IsObjectOfBatch : Db → Str → Str → CleanupObject → Type 0
IsObjectOfBatch db task batch o =
    (is_object task scope_baidu_batch_dir batch o || is_local_object_of_batch db task batch o)
    ≡ true

-- A row whose object was deleted with permission.
pub record IsCleaned (o : CleanupObject) : Type 0 where
  pub allowed : o.cleanup_allowed ≡ true
  pub cleaned : is_empty o.cleaned_at ≡ false

-- The batch may be closed: it has files, all of them pending, and all its objects were deleted.
pub record IsClosable (db : Db) (task batch : Str) : Type 0 where
  pub pending :
      All (λ (f : File). f.status ≡ FileStatus.cleanup_pending) (batch_files_of db task batch)
  pub nonempty : (count_where (is_batch_file task batch) db.batch_files == 0) ≡ false
  pub cleaned : All (λ o. IsObjectOfBatch db task batch o → IsCleaned o) db.owned_objects
  pub one_directory : count_where (is_object task scope_baidu_batch_dir batch) db.owned_objects ≡ 1
  pub all_local :
      count_where (is_local_object_of_batch db task batch) db.owned_objects
      ≡ count_where (is_batch_file task batch) db.batch_files

not_open-IsCleaned :
    (b : Bool) (o : CleanupObject) → (b && is_open o) ≡ false → b ≡ true → IsCleaned o
not_open-IsCleaned b o h mine = ground arith

validate_facts :
    (task batch : Str) (db : Db)
    → validate_batch_cleanup_completeness task batch db ≡ ok tt
    → ((count_where (is_batch_file task batch) db.batch_files == 0) ≡ false)
      × (count_where (is_local_object_of_batch db task batch) db.owned_objects
          ≡ count_where (is_batch_file task batch) db.batch_files)
      × (count_where (is_object task scope_baidu_batch_dir batch) db.owned_objects ≡ 1)
      × (count_where
            (λ o.
              (is_object task scope_baidu_batch_dir batch o
                || is_local_object_of_batch db task batch o)
              && is_open o)
            db.owned_objects
          ≡ 0)
unfolding validate_batch_cleanup_completeness
validate_facts task batch db h = ground arith

pending_status :
    (f : File) → not (is_cleanup_pending f.status) ≡ false → f.status ≡ FileStatus.cleanup_pending
pending_status f h = ground arith

-- The `UPDATE` of the files.
abbrev pub mark_done : Str → File → File
mark_done now f = record f { status = FileStatus.done; last_error = []; updated_at = now }

abbrev pub done_files : Db → Str → Str → Str → List File
done_files db task batch now =
    update_where (λ f. is_file_of_batch db task batch f && is_cleanup_pending f.status)
      (mark_done now) db.files

validate-IsClosable :
    (task batch : Str) (db : Db)
    → count_where (λ f. not (is_cleanup_pending f.status)) (batch_files_of db task batch) ≡ 0
    → validate_batch_cleanup_completeness task batch db ≡ ok tt
    → IsClosable db task batch
validate-IsClosable task batch db all valid =
    let (nonempty, local, directory, none_open) = validate_facts task batch db valid in
    record {
      pending =
          All-map _ (λ (f : File). f.status ≡ FileStatus.cleanup_pending)
            (batch_files_of db task batch) pending_status
            (count_where-none _ (batch_files_of db task batch) all);
      nonempty = nonempty;
      cleaned =
          All-map _ (λ o. IsObjectOfBatch db task batch o → IsCleaned o) db.owned_objects
            (λ o. not_open-IsCleaned _ o) (count_where-none _ db.owned_objects none_open);
      one_directory = directory;
      all_local = local;
    }

pub complete_batch_cleanup_facts :
    (task batch now : Str) (db : Db)
    → (complete_batch_cleanup task batch now db).1 ≡ ok tt
    → IsClosable db task batch
      × ((complete_batch_cleanup task batch now db).0
          ≡ record db { files = done_files db task batch now })
unfolding complete_batch_cleanup update_files
complete_batch_cleanup_facts task batch now db h =
    let (after, ran, committed) = in_tx-ok _ db h in
    let h1 = get_then _ ran in
    let (none_left, h2) = guard_then _ _ _ h1 in
    let (_, valid, h3) = lift_then _ _ h2 in
    let (changed, mid, updated, h4) = >>=-eq-ok _ _ db h3 in
    let (_, kept) = guard_lem _ _ h4 in
    (
      validate-IsClosable task batch db (==→eq _ 0 none_left) valid,
      committed ∙ kept ∙ sym (ap (λ p. p.1) (ok-eq updated)),
    )

pending_taken :
    (f : File) → f.status ≡ FileStatus.cleanup_pending → is_cleanup_pending f.status ≡ true
pending_taken f h = ap is_cleanup_pending h

-- If CompleteBatchCleanup succeeds, then the batch was closable: it had files, all of them pending,
-- one cache row for each and one directory row, and every one of these objects was allowed and
-- deleted; and each file that the batch names is then found as done, with nothing else of it
-- changed but its error and its time.
pub complete_batch_cleanup_lem :
    (task batch now : Str) (db : Db)
    → (complete_batch_cleanup task batch now db).1 ≡ ok tt
    → IsClosable db task batch
      × ((id : Str) (f : File)
          → in_batch db task batch id ≡ true
          → find_file task id db ≡ some f
          → find_file task id (complete_batch_cleanup task batch now db).0 ≡ some (mark_done now f))
unfolding find_file
complete_batch_cleanup_lem task batch now db h =
    let (closable, after) = complete_batch_cleanup_facts task batch now db h in
    (
      closable,
      λ id f mine found.
          let mine' = found_in_batch db task batch id f mine found in
          let pending =
            batch_files-All (λ f. f.status ≡ FileStatus.cleanup_pending) db task batch id f
              closable.pending mine found in
          let updated =
            find-update_same task id
              (λ f. is_file_of_batch db task batch f && is_cleanup_pending f.status) (mark_done now)
              db.files (λ x. (refl, refl)) found in
          ap (λ (d : Db). first_where (is_file task id) d.files) after
          ∙ rw (mine', pending_taken f pending) at updated,
    )
