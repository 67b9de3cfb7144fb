-- ===== src/State/Progress.antt =====
-- internal/state/pipeline_store.go and query.go: how far the files of a task have come.
pub mod Counts
pub mod DriveWork
use baidu_drive_mover.Base.{
  ℕ, ◌+◌, Bool, ◌&&◌, ◌||◌, not, none, some, ◌==◌, ltb, Result, ok, err, is_empty, count_where,
}
use baidu_drive_mover.Text.{Str, str_eq}
use baidu_drive_mover.State.Model.{Task, FileStatus, StateError, same_status}
use baidu_drive_mover.State.Db.{Db}
use baidu_drive_mover.State.Tasks.{get_task}
use baidu_drive_mover.State.Download.{reserved_cache_bytes}
use baidu_drive_mover.State.CleanupRoot.{baidu_task_root_cleanup_state}

pub record PipelineProgress : Type 0 where
  pub scan_incomplete : Bool
  pub total : ℕ
  pub discovered : ℕ
  pub planned : ℕ
  pub baidu_staging : ℕ
  pub baidu_staged : ℕ
  pub downloading : ℕ
  pub local_ready : ℕ
  pub drive_uploading : ℕ
  pub drive_uploaded : ℕ
  pub drive_verified : ℕ
  pub cleanup_pending : ℕ
  pub done : ℕ
  pub failed_retryable : ℕ
  pub failed_permanent : ℕ
  pub reserved_cache : ℕ
  pub drive_root_ready : Bool
  pub baidu_task_root_registered : Bool
  pub baidu_task_root_cleaned : Bool

abbrev pub files_done : PipelineProgress → Bool
files_done p = p.total == 0 || p.done == p.total

unfoldable pub complete : PipelineProgress → Bool
complete p =
    files_done p
    && (p.drive_root_ready && (not p.baidu_task_root_registered || p.baidu_task_root_cleaned))

unfoldable pub has_drive_work : PipelineProgress → Bool
has_drive_work p = ltb 0 (p.local_ready + p.drive_uploading + p.drive_uploaded)

unfoldable pub has_download_work : PipelineProgress → Bool
has_download_work p = ltb 0 (p.baidu_staged + p.downloading)

unfoldable pub has_stage_work : PipelineProgress → Bool
has_stage_work p = ltb 0 (p.discovered + p.planned + p.baidu_staging)

unfoldable pub has_cleanup_work : PipelineProgress → Bool
has_cleanup_work p =
    ltb 0 (p.drive_verified + p.cleanup_pending)
    || (files_done p && (p.baidu_task_root_registered && not p.baidu_task_root_cleaned))

unfoldable pub count_files_by_status : Str → FileStatus → Db → ℕ
count_files_by_status task status db =
    count_where (λ f. str_eq task f.task_id && same_status f.status status) db.files

-- A group of `GROUP BY status` is the count of its status; a status with no files stays 0.
unfoldable pub progress_of : Str → Task → Db → PipelineProgress
progress_of task t db =
    let count = λ (s : FileStatus). count_files_by_status task s db in
    let (registered, cleaned) = baidu_task_root_cleanup_state task db in
    record {
      scan_incomplete = not t.scan_completed;
      total = count_where (λ f. str_eq task f.task_id) db.files;
      discovered = count FileStatus.discovered;
      planned = count FileStatus.planned;
      baidu_staging = count FileStatus.baidu_staging;
      baidu_staged = count FileStatus.baidu_staged;
      downloading = count FileStatus.downloading;
      local_ready = count FileStatus.local_ready;
      drive_uploading = count FileStatus.drive_uploading;
      drive_uploaded = count FileStatus.drive_uploaded;
      drive_verified = count FileStatus.drive_verified;
      cleanup_pending = count FileStatus.cleanup_pending;
      done = count FileStatus.done;
      failed_retryable = count FileStatus.failed_retryable;
      failed_permanent = count FileStatus.failed_permanent;
      reserved_cache = reserved_cache_bytes db;
      drive_root_ready = not (is_empty t.drive_root_id) && not (is_empty t.drive_root_name);
      baidu_task_root_registered = registered;
      baidu_task_root_cleaned = cleaned;
    }

unfoldable pub pipeline_progress : Str → Db → Result StateError PipelineProgress
pipeline_progress task db = elim (get_task task db) [
  | none ↦ err StateError.not_found
  | some t ↦ ok (progress_of task t db)
]
