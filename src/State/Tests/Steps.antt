-- ===== src/State/Tests/Steps.antt =====
-- Progress and transitions at concrete values.
use baidu_drive_mover.Base.{◌≡◌, ◌↔◌, refl, true, false, ok}
use baidu_drive_mover.Text.{bytes}
use baidu_drive_mover.State.Model.{FileStatus}
use baidu_drive_mover.State.Progress.{PipelineProgress, complete, pipeline_progress}
use baidu_drive_mover.State.Progress.Counts.{sum_of_counts, IsIdle, pipeline_progress_lem}
use baidu_drive_mover.State.Transitions.{
  IsForward, IsBeforeDone, IsFinal, validate_file_transition_lem,
}
use baidu_drive_mover.State.Tests.{program, staged_db}

abbrev staged_progress : PipelineProgress
staged_progress = record {
  scan_incomplete = true;
  total = 1;
  discovered = 0;
  planned = 0;
  baidu_staging = 0;
  baidu_staged = 1;
  downloading = 0;
  local_ready = 0;
  drive_uploading = 0;
  drive_uploaded = 0;
  drive_verified = 0;
  cleanup_pending = 0;
  done = 0;
  failed_retryable = 0;
  failed_permanent = 0;
  reserved_cache = 0;
  drive_root_ready = false;
  baidu_task_root_registered = true;
  baidu_task_root_cleaned = false;
}

progresses : pipeline_progress (bytes "t1") staged_db ≡ ok staged_progress
unfolding program
progresses = refl

pipeline_progress_example :
    (staged_progress.total ≡ sum_of_counts staged_progress)
    × ((complete staged_progress ≡ true)
        ↔ (IsIdle staged_progress × (staged_progress.drive_root_ready ≡ true)))
pipeline_progress_example = pipeline_progress_lem (bytes "t1") staged_db staged_progress progresses

verified_to_done :
    IsForward FileStatus.drive_verified FileStatus.done
    × (FileStatus.done ≡ FileStatus.done → IsBeforeDone FileStatus.drive_verified)
    × (IsFinal FileStatus.drive_verified → FileStatus.done ≡ FileStatus.drive_verified)
unfolding program
verified_to_done = validate_file_transition_lem FileStatus.drive_verified FileStatus.done refl
