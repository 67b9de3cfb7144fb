-- ===== src/State/Cleanup.antt =====
-- internal/state/cleanup_store.go, cleanup_actions.go, cleanup_integrity.go: the gate in front of
-- every deletion, and the record of what was deleted.
pub mod Authorized
pub mod Completed
pub mod Repeated
use baidu_drive_mover.Base.{
  ℕ, Bool, true, false, ◌&&◌, ◌||◌, not, List, [], ◌∷◌, none, some, if◌then◌else◌, ◌==◌, Result, ok,
  err, order_by, select, take, is_empty, count_where, exists_where,
}
use baidu_drive_mover.Text.{Str, str_eq, str_le, trim_space}
use baidu_drive_mover.Path.{join}
use baidu_drive_mover.State.Model.{File, FileStatus, StateError}
use baidu_drive_mover.State.Db.{
  Db, BatchRow, CleanupObject, Store, Tx, in_tx, exec_one, ◌>>=◌, ◌>>◌, return, guard, get, expect,
  lift, is_batch_file, is_object, in_batch, is_file_of_batch, find_object, find_batch, update_files,
  update_objects, batch_files_of, register_object, scope_local_cache_file, scope_baidu_batch_dir,
  scope_baidu_task_root, is_safe_component, baidu_staging_root, truncate_state_error,
}
use baidu_drive_mover.State.Download.{or_default, cache_path_of}

pub record CleanupBatch : Type 0 where
  pub task_id : Str
  pub batch_id : Str
  pub baidu_staging_path : Str
  pub files : List File
  pub local_objects : List CleanupObject
  pub baidu_object : CleanupObject

unfoldable pub expected_local_cache_path : Str → Str → Result StateError Str
expected_local_cache_path task id =
    if is_safe_component task && is_safe_component id
    then ok (cache_path_of task id)
    else err StateError.unsafe_identity

unfoldable pub expected_baidu_batch_path : Str → Str → Result StateError Str
expected_baidu_batch_path task batch =
    if is_safe_component task && is_safe_component batch
    then ok (join (baidu_staging_root ∷ task ∷ batch ∷ []))
    else err StateError.unsafe_identity

abbrev pub is_cleanup_eligible : FileStatus → Bool
is_cleanup_eligible FileStatus.drive_verified = true
is_cleanup_eligible FileStatus.cleanup_pending = true
is_cleanup_eligible _ = false

abbrev pub is_drive_verified : FileStatus → Bool
is_drive_verified FileStatus.drive_verified = true
is_drive_verified _ = false

abbrev pub is_cleanup_pending : FileStatus → Bool
is_cleanup_pending FileStatus.cleanup_pending = true
is_cleanup_pending _ = false

unfoldable pub cleanup_candidates : Str → ℕ → Db → List BatchRow
cleanup_candidates task limit db = take (or_default 32 limit) (
    order_by (λ a b. str_le a.batch_id b.batch_id)
      (select
        (λ b.
          str_eq task b.task_id
          && (not (
                exists_where (λ f. not (is_cleanup_eligible f.status))
                  (batch_files_of db b.task_id b.batch_id))
              && exists_where (is_batch_file b.task_id b.batch_id) db.batch_files))
        db.batches))

-- What AuthorizeBatchCleanup checks of each file of the batch.
unfoldable pub check_cleanup_file : Str → File → Result StateError (Unit {0})
check_cleanup_file task f =
    if not (is_cleanup_eligible f.status)
    then err StateError.not_eligible
    else if is_empty (trim_space f.drive_id)
    then err StateError.missing_drive_id
    else if not (is_safe_component task && is_safe_component f.file_id)
    then err StateError.unsafe_identity
    else if str_eq f.local_cache_path (cache_path_of task f.file_id)
    then ok tt
    else err StateError.path_mismatch

unfoldable pub check_cleanup_files : Str → List File → Result StateError (Unit {0})
check_cleanup_files task [] = ok tt
check_cleanup_files task (f ∷ fs) =
    let rest = check_cleanup_files task fs in
    elim (check_cleanup_file task f) [ ok _ ↦ rest | err e ↦ err e ]

-- The local cache row of a file is added if it is missing, and must name the file's cache path.
unfoldable pub backfill_local_object : Str → Str → File → Tx CleanupObject
backfill_local_object task now f = do
  register_object task scope_local_cache_file f.file_id (cache_path_of task f.file_id) now
  db ← get
  o ← expect (find_object task scope_local_cache_file f.file_id db) StateError.not_found
  guard (str_eq o.object_path (cache_path_of task f.file_id)) StateError.provenance_mismatch
  return o

unfoldable pub backfill_local_objects : Str → Str → List File → Tx (List CleanupObject)
backfill_local_objects task now [] = return []
backfill_local_objects task now (f ∷ fs) = do
  o ← backfill_local_object task now f
  os ← backfill_local_objects task now fs
  return (o ∷ os)

abbrev pub allow_cleanup : CleanupObject → CleanupObject
allow_cleanup o = record o { cleanup_allowed = true; last_error = [] }

-- The local cache rows of the batch's files.
unfoldable pub is_local_object_of_batch : Db → Str → Str → CleanupObject → Bool
is_local_object_of_batch db task batch o =
    str_eq task o.task_id
    && (str_eq scope_local_cache_file o.scope && in_batch db task batch o.object_id)

unfoldable pub mark_pending_and_allow : Str → Str → Str → Tx (Unit {0})
mark_pending_and_allow task batch now = do
  db ← get
  _ ←
      update_files (λ f. is_file_of_batch db task batch f && is_drive_verified f.status)
        (λ f. record f { status = FileStatus.cleanup_pending; last_error = []; updated_at = now })
  _ ← update_objects (is_object task scope_baidu_batch_dir batch) allow_cleanup
  _ ← update_objects (is_local_object_of_batch db task batch) allow_cleanup
  return tt

-- The reads of AuthorizeBatchCleanup, and the files of the batch that they find.
unfoldable pub check_batch : Str → Str → Str → Tx (List File)
check_batch task batch expected = do
  db ← get
  row ← expect (find_batch task batch db) StateError.not_found
  guard (str_eq row.baidu_staging_path expected) StateError.path_mismatch
  lift (check_cleanup_files task (batch_files_of db task batch))
  guard (not (is_empty (batch_files_of db task batch))) StateError.no_files
  o ← expect (find_object task scope_baidu_batch_dir batch db) StateError.not_found
  guard (str_eq o.object_path expected) StateError.provenance_mismatch
  return (batch_files_of db task batch)

unfoldable pub authorize_tx : Str → Str → Str → Str → Tx (Unit {0})
authorize_tx task batch expected now = do
  files ← check_batch task batch expected
  _ ← backfill_local_objects task now files
  mark_pending_and_allow task batch now

-- One turn of the loop of GetAuthorizedCleanupBatch over the batch's files.
unfoldable pub authorized_local_object : Db → Str → File → Result StateError CleanupObject
authorized_local_object db task f =
    if not (is_cleanup_pending f.status)
    then err StateError.not_pending
    else if is_empty (trim_space f.drive_id)
    then err StateError.missing_drive_id
    else elim (find_object task scope_local_cache_file f.file_id db) [
      | none ↦ err StateError.not_found
      | some o ↦
          if o.cleanup_allowed && str_eq o.object_path (cache_path_of task f.file_id)
          then ok o
          else err StateError.not_authorized
    ]

unfoldable pub authorized_local_objects :
    Db → Str → List File → Result StateError (List CleanupObject)
authorized_local_objects db task [] = ok []
authorized_local_objects db task (f ∷ fs) =
    let rest = authorized_local_objects db task fs in
    elim (authorized_local_object db task f) [
      | err e ↦ err e
      | ok o ↦ elim rest [ ok os ↦ ok (o ∷ os) | err e ↦ err e ]
    ]

unfoldable pub get_authorized_cleanup_batch : Str → Str → Db → Result StateError CleanupBatch
get_authorized_cleanup_batch task batch db = elim (expected_baidu_batch_path task batch) [
  | err e ↦ err e
  | ok expected ↦ elim (find_batch task batch db) [
    | none ↦ err StateError.not_found
    | some row ↦
        if str_eq row.baidu_staging_path expected
        then elim (authorized_local_objects db task (batch_files_of db task batch)) [
          | err e ↦ err e
          | ok locals ↦ elim (find_object task scope_baidu_batch_dir batch db) [
            | none ↦ err StateError.not_found
            | some o ↦
                if o.cleanup_allowed && str_eq o.object_path expected
                then ok (record {
                  task_id = task;
                  batch_id = batch;
                  baidu_staging_path = row.baidu_staging_path;
                  files = batch_files_of db task batch;
                  local_objects = locals;
                  baidu_object = o;
                })
                else err StateError.not_authorized
          ]
        ]
        else err StateError.path_mismatch
  ]
]

-- After the commit the batch is read back, and that may still fail.
unfoldable pub read_back :
    Str → Str → Db × Result StateError (Unit {0}) → Db × Result StateError CleanupBatch
read_back task batch (after, ok _) = (after, get_authorized_cleanup_batch task batch after)
read_back task batch (after, err e) = (after, err e)

unfoldable pub authorize_batch_cleanup : Str → Str → Str → Store CleanupBatch
authorize_batch_cleanup task batch now db = elim (expected_baidu_batch_path task batch) [
  | err e ↦ (db, err e)
  | ok expected ↦ read_back task batch (in_tx (authorize_tx task batch expected now) db)
]

unfoldable pub is_deletable_scope : Str → Bool
is_deletable_scope scope =
    str_eq scope_local_cache_file scope
    || (str_eq scope_baidu_batch_dir scope || str_eq scope_baidu_task_root scope)

abbrev pub mark_cleaned : Str → CleanupObject → CleanupObject
mark_cleaned now o = record o {
  cleaned_at = if is_empty o.cleaned_at then now else o.cleaned_at;
  last_error = [];
}

unfoldable pub mark_cleanup_object_done : Str → Str → Str → Str → Store (Unit {0})
mark_cleanup_object_done task scope id now db =
    if is_deletable_scope scope
    then exec_one
        (update_objects (λ o. is_object task scope id o && o.cleanup_allowed) (mark_cleaned now))
        StateError.not_authorized db
    else (db, err StateError.invalid_argument)

unfoldable pub record_cleanup_object_failure : Str → Str → Str → Str → Store (Unit {0})
record_cleanup_object_failure task scope id message =
    exec_one
      (update_objects
        (λ o. is_object task scope id o && (o.cleanup_allowed && is_empty o.cleaned_at))
        (λ o. record o { last_error = truncate_state_error message }))
      StateError.not_pending

-- Rows that block the end of a cleanup: not allowed, or not cleaned.
abbrev pub is_open : CleanupObject → Bool
is_open o = not o.cleanup_allowed || is_empty o.cleaned_at

-- The counts that both ValidateBatchCleanupCompleteness and CompleteBatchCleanup make.
unfoldable pub validate_batch_cleanup_completeness : Str → Str → Db → Result StateError (Unit {0})
validate_batch_cleanup_completeness task batch db =
    let file_count = count_where (is_batch_file task batch) db.batch_files in
    if file_count == 0
    then err StateError.no_files
    else if not
        (count_where (is_local_object_of_batch db task batch) db.owned_objects == file_count)
    then err StateError.incomplete_batch
    else if not (count_where (is_object task scope_baidu_batch_dir batch) db.owned_objects == 1)
    then err StateError.incomplete_batch
    else if count_where
          (λ o.
            (is_object task scope_baidu_batch_dir batch o
              || is_local_object_of_batch db task batch o)
            && is_open o)
          db.owned_objects
        == 0
    then ok tt
    else err StateError.incomplete_batch

unfoldable pub complete_batch_cleanup : Str → Str → Str → Store (Unit {0})
complete_batch_cleanup task batch now = in_tx do
  db ← get
  guard (count_where (λ f. not (is_cleanup_pending f.status)) (batch_files_of db task batch) == 0)
      StateError.not_pending
  lift (validate_batch_cleanup_completeness task batch db)
  changed ←
      update_files (λ f. is_file_of_batch db task batch f && is_cleanup_pending f.status)
        (λ f. record f { status = FileStatus.done; last_error = []; updated_at = now })
  guard (not (changed == 0)) StateError.no_files

unfoldable pub mark_local_cache_cleanup_done : Str → Str → Str → Store (Unit {0})
mark_local_cache_cleanup_done task id = mark_cleanup_object_done task scope_local_cache_file id

unfoldable pub mark_baidu_batch_cleanup_done : Str → Str → Str → Store (Unit {0})
mark_baidu_batch_cleanup_done task batch = mark_cleanup_object_done task scope_baidu_batch_dir batch

unfoldable pub record_local_cache_cleanup_failure : Str → Str → Str → Store (Unit {0})
record_local_cache_cleanup_failure task id =
    record_cleanup_object_failure task scope_local_cache_file id

unfoldable pub record_baidu_batch_cleanup_failure : Str → Str → Str → Store (Unit {0})
record_baidu_batch_cleanup_failure task batch =
    record_cleanup_object_failure task scope_baidu_batch_dir batch
