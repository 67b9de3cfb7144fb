-- ===== src/State/Staging.antt =====
-- internal/state/staging_store.go: a batch on its way to the Baidu staging directory.
use baidu_drive_mover.Base.{
  ◌+◌, Bool, true, false, not, ◌&&◌, List, [], ◌∷◌, Option, none, if◌then◌else◌, ◌==◌, count_where,
  order_by, select,
}
use baidu_drive_mover.Text.{Str, str_eq, str_le}
use baidu_drive_mover.Path.{join}
use baidu_drive_mover.State.Model.{File, FileStatus, BatchStatus, Batch, StateError}
use baidu_drive_mover.State.Db.{
  Db, BatchRow, Store, Tx, in_tx, ◌>>=◌, ◌>>◌, return, guard, get, expect, is_file, is_batch,
  in_batch, is_file_of_batch, find_file, find_batch, update_files, update_batches, batch_files_of,
  truncate_state_error,
}

-- The statuses named by the `IN` lists of the statements.
abbrev pub is_startable_batch : BatchStatus → Bool
is_startable_batch BatchStatus.pending = true
is_startable_batch BatchStatus.staging = true
is_startable_batch BatchStatus.failed_retryable = true
is_startable_batch _ = false

abbrev pub is_stageable : FileStatus → Bool
is_stageable FileStatus.planned = true
is_stageable FileStatus.failed_retryable = true
is_stageable _ = false

abbrev pub is_confirmable : FileStatus → Bool
is_confirmable FileStatus.planned = true
is_confirmable FileStatus.baidu_staging = true
is_confirmable FileStatus.failed_retryable = true
is_confirmable _ = false

unfoldable pub staging_confirmation_already_consumed : FileStatus → Bool
staging_confirmation_already_consumed FileStatus.baidu_staged = true
staging_confirmation_already_consumed FileStatus.downloading = true
staging_confirmation_already_consumed FileStatus.local_ready = true
staging_confirmation_already_consumed FileStatus.drive_uploading = true
staging_confirmation_already_consumed FileStatus.drive_uploaded = true
staging_confirmation_already_consumed FileStatus.drive_verified = true
staging_confirmation_already_consumed FileStatus.cleanup_pending = true
staging_confirmation_already_consumed FileStatus.done = true
staging_confirmation_already_consumed _ = false

abbrev pub is_baidu_staged : FileStatus → Bool
is_baidu_staged FileStatus.baidu_staged = true
is_baidu_staged _ = false

abbrev pub batch_of_row : BatchRow → List File → Batch
batch_of_row b files = record {
  task_id = b.task_id;
  batch_id = b.batch_id;
  logical_parent = b.logical_parent;
  baidu_staging_path = b.baidu_staging_path;
  status = b.status;
  file_count = b.file_count;
  total_bytes = b.total_bytes;
  retry_count = b.retry_count;
  last_error = b.last_error;
  files = files;
}

unfoldable pub with_files : Db → Str → List BatchRow → List Batch
with_files db task [] = []
with_files db task (b ∷ bs) =
    batch_of_row b (batch_files_of db task b.batch_id) ∷ with_files db task bs

unfoldable pub staging_batches : Str → Db → List Batch
staging_batches task db = with_files db task (
    order_by (λ a b. str_le a.batch_id b.batch_id)
      (select (λ b. str_eq task b.task_id && is_startable_batch b.status) db.batches))

unfoldable pub start_batch : Str → Str → Str → Store (Unit {0})
start_batch task batch now = in_tx do
  changed ←
      update_batches (λ b. is_batch task batch b && is_startable_batch b.status)
        (λ b. record b { status = BatchStatus.staging; last_error = []; updated_at = now })
  guard (changed == 1) StateError.not_eligible
  db ← get
  _ ←
      update_files (λ f. is_file_of_batch db task batch f && is_stageable f.status)
        (λ f. record f { status = FileStatus.baidu_staging; updated_at = now })
  return tt

-- The name of a file that the batch has.
unfoldable pub staged_file : Str → Str → Str → Db → Option File
staged_file task batch id db = if in_batch db task batch id then find_file task id db else none

-- The first loop of RecordStagedFiles: each path must be the file's name below the batch's path.
unfoldable pub validate_staged : Str → Str → Str → List (Str × Str) → Tx (Unit {0})
validate_staged task batch batch_path [] = return tt
validate_staged task batch batch_path ((id, remote) ∷ rest) = do
  db ← get
  f ← expect (staged_file task batch id db) StateError.not_found
  guard (str_eq remote (join (batch_path ∷ f.name ∷ []))) StateError.path_mismatch
  validate_staged task batch batch_path rest

-- A repeated confirmation of a file that has moved on is accepted.
unfoldable pub confirm_consumed : Str → Str → Str → Tx (Unit {0})
confirm_consumed task id remote = do
  db ← get
  f ← expect (find_file task id db) StateError.not_eligible
  guard (staging_confirmation_already_consumed f.status && str_eq f.baidu_staging_path remote)
      StateError.not_eligible

unfoldable pub mark_staged_file : Str → Str → Str → Str × Str → Tx (Unit {0})
mark_staged_file task batch now (id, remote) = do
  db ← get
  changed ←
      update_files
        (λ f. is_file task id f && (in_batch db task batch f.file_id && is_confirmable f.status))
        (λ f. record f {
          status = FileStatus.baidu_staged;
          baidu_staging_path = remote;
          last_error = [];
          updated_at = now;
        })
  if changed == 1 then return tt else confirm_consumed task id remote

unfoldable pub mark_staged : Str → Str → Str → List (Str × Str) → Tx (Unit {0})
mark_staged task batch now [] = return tt
mark_staged task batch now (entry ∷ rest) = do
  mark_staged_file task batch now entry
  mark_staged task batch now rest

-- `staged` lists the entries of the map in the order in which the loops visit them.
unfoldable pub record_staged_files : Str → Str → List (Str × Str) → Str → Store (Unit {0})
record_staged_files task batch [] now = in_tx (return tt)
record_staged_files task batch (entry ∷ rest) now = in_tx do
  db ← get
  row ← expect (find_batch task batch db) StateError.not_found
  validate_staged task batch row.baidu_staging_path (entry ∷ rest)
  mark_staged task batch now (entry ∷ rest)

unfoldable pub complete_batch : Str → Str → Str → Store (Unit {0})
complete_batch task batch now = in_tx do
  db ← get
  guard
      (count_where (λ f. not (staging_confirmation_already_consumed f.status))
          (batch_files_of db task batch)
        == 0)
      StateError.incomplete_batch
  changed ←
      update_batches (is_batch task batch)
        (λ b. record b { status = BatchStatus.staged; last_error = []; updated_at = now })
  guard (changed == 1) StateError.not_found

unfoldable pub fail_files_of_batch : Str → Str → Str → Str → Tx (Unit {0})
fail_files_of_batch task batch message now = do
  db ← get
  _ ←
      update_files (λ f. is_file_of_batch db task batch f && not (is_baidu_staged f.status))
        (λ f. record f {
          status = FileStatus.failed_permanent;
          last_error = truncate_state_error message;
          updated_at = now;
        })
  return tt

unfoldable pub fail_batch : Str → Str → Str → Bool → Str → Store (Unit {0})
fail_batch task batch message permanent now = in_tx do
  _ ← update_batches (is_batch task batch) (λ b. record b {
    status = if permanent then BatchStatus.failed_permanent else BatchStatus.failed_retryable;
    retry_count = b.retry_count + 1;
    last_error = truncate_state_error message;
    updated_at = now;
  })
  if permanent then fail_files_of_batch task batch message now else return tt
