-- ===== src/State/Model.antt =====
-- internal/state/model.go: the statuses, the row types and the table of file transitions.
use baidu_drive_mover.Base.{ℕ, Bool, true, false, List, ◌||◌, if◌then◌else◌, Result, ok, err, ◌==◌}
use baidu_drive_mover.Text.{Str}

pub data TaskStatus : Type 0 where
  new auth_required scanning running paused blocked completed failed : TaskStatus

pub data FileStatus : Type 0 where
  discovered planned baidu_staging baidu_staged downloading local_ready : FileStatus
  drive_uploading drive_uploaded drive_verified cleanup_pending done : FileStatus
  failed_retryable failed_permanent : FileStatus

pub data BatchStatus : Type 0 where
  pending staging staged failed_retryable failed_permanent : BatchStatus

pub record Task : Type 0 where
  pub id : Str
  pub share_url : Str
  pub extraction_code : Str
  pub status : TaskStatus
  pub scan_completed : Bool
  pub drive_root_id : Str
  pub drive_root_name : Str
  pub last_error : Str
  pub created_at : Str
  pub updated_at : Str

pub record Directory : Type 0 where
  pub task_id : Str
  pub logical_path : Str
  pub drive_id : Str
  pub created_at : Str
  pub updated_at : Str

pub record File : Type 0 where
  pub task_id : Str
  pub file_id : Str
  pub logical_path : Str
  pub parent_path : Str
  pub name : Str
  pub size : ℕ  -- int64, not negative by the table's CHECK
  pub md5 : Str
  pub status : FileStatus
  pub baidu_staging_path : Str
  pub local_cache_path : Str
  pub drive_id : Str
  pub retry_count : ℕ
  pub last_error : Str
  pub created_at : Str
  pub updated_at : Str

-- A batch with its files, as the store hands it out.
pub record Batch : Type 0 where
  pub task_id : Str
  pub batch_id : Str
  pub logical_parent : Str
  pub baidu_staging_path : Str
  pub status : BatchStatus
  pub file_count : ℕ
  pub total_bytes : ℕ  -- int64
  pub retry_count : ℕ
  pub last_error : Str
  pub files : List File

file_status_code : FileStatus → ℕ
file_status_code FileStatus.discovered = 0
file_status_code FileStatus.planned = 1
file_status_code FileStatus.baidu_staging = 2
file_status_code FileStatus.baidu_staged = 3
file_status_code FileStatus.downloading = 4
file_status_code FileStatus.local_ready = 5
file_status_code FileStatus.drive_uploading = 6
file_status_code FileStatus.drive_uploaded = 7
file_status_code FileStatus.drive_verified = 8
file_status_code FileStatus.cleanup_pending = 9
file_status_code FileStatus.done = 10
file_status_code FileStatus.failed_retryable = 11
file_status_code FileStatus.failed_permanent = 12

unfoldable pub same_status : FileStatus → FileStatus → Bool
unfolding file_status_code
same_status from to = file_status_code from == file_status_code to

-- `allowedFileTransitions`, a row for each status.
unfoldable pub allowed_file_transitions : FileStatus → FileStatus → Bool
allowed_file_transitions FileStatus.discovered to = elim to [
  | FileStatus.planned ↦ true
  | FileStatus.failed_permanent ↦ true
  | _ ↦ false
]
allowed_file_transitions FileStatus.planned to = elim to [
  | FileStatus.baidu_staging ↦ true
  | FileStatus.failed_retryable ↦ true
  | FileStatus.failed_permanent ↦ true
  | _ ↦ false
]
allowed_file_transitions FileStatus.baidu_staging to = elim to [
  | FileStatus.baidu_staged ↦ true
  | FileStatus.failed_retryable ↦ true
  | FileStatus.failed_permanent ↦ true
  | _ ↦ false
]
allowed_file_transitions FileStatus.baidu_staged to = elim to [
  | FileStatus.downloading ↦ true
  | FileStatus.failed_retryable ↦ true
  | FileStatus.failed_permanent ↦ true
  | _ ↦ false
]
allowed_file_transitions FileStatus.downloading to = elim to [
  | FileStatus.local_ready ↦ true
  | FileStatus.failed_retryable ↦ true
  | FileStatus.failed_permanent ↦ true
  | _ ↦ false
]
allowed_file_transitions FileStatus.local_ready to = elim to [
  | FileStatus.drive_uploading ↦ true
  | FileStatus.drive_uploaded ↦ true
  | FileStatus.failed_retryable ↦ true
  | FileStatus.failed_permanent ↦ true
  | _ ↦ false
]
allowed_file_transitions FileStatus.drive_uploading to = elim to [
  | FileStatus.drive_uploaded ↦ true
  | FileStatus.failed_retryable ↦ true
  | FileStatus.failed_permanent ↦ true
  | _ ↦ false
]
allowed_file_transitions FileStatus.drive_uploaded to = elim to [
  | FileStatus.drive_verified ↦ true
  | FileStatus.failed_retryable ↦ true
  | FileStatus.failed_permanent ↦ true
  | _ ↦ false
]
allowed_file_transitions FileStatus.drive_verified to = elim to [
  | FileStatus.cleanup_pending ↦ true
  | FileStatus.done ↦ true
  | _ ↦ false
]
allowed_file_transitions FileStatus.cleanup_pending to = elim to [
  | FileStatus.done ↦ true
  | FileStatus.failed_retryable ↦ true
  | _ ↦ false
]
allowed_file_transitions FileStatus.failed_retryable to = elim to [
  | FileStatus.discovered ↦ false
  | FileStatus.done ↦ false
  | FileStatus.failed_retryable ↦ false
  | _ ↦ true
]
allowed_file_transitions FileStatus.done to = false
allowed_file_transitions FileStatus.failed_permanent to = false

-- What the operations of the store report, one constructor for each kind of refusal.
pub data StateError : Type 0 where
  invalid_transition : FileStatus → FileStatus → StateError
  invalid_argument unsafe_identity not_found not_eligible constraint_failed : StateError
  path_mismatch provenance_mismatch changed_concurrently refuse_replace : StateError
  not_authorized not_pending incomplete_batch no_files missing_drive_id : StateError
  manifest_conflict invalid_path : StateError

unfoldable pub validate_file_transition : FileStatus → FileStatus → Result StateError (Unit {0})
unfolding same_status allowed_file_transitions
validate_file_transition from to =
    if same_status from to || allowed_file_transitions from to
    then ok tt
    else err (StateError.invalid_transition from to)
