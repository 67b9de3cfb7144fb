-- ===== src/App/Tests.antt =====
-- Run at a small world: the state is the progress itself, and each pass moves the one file on.
use baidu_drive_mover.Base.{
  ◌≤◌, sym, ap, ok-eq, [], ℕ, ◌≡◌, refl, true, false, none, some, ok, ◌==◌, ◌+◌,
}
use baidu_drive_mover.State.Progress.{
  PipelineProgress, complete, has_drive_work, has_download_work, has_stage_work, has_cleanup_work,
}
use baidu_drive_mover.App.Pipeline.{
  RunError, PipelineRunner, zero_progress, zero_summary, same_progress, continue, ◌>>=◌, return,
  leave, try_call, read_progress, give_up, finish, fail_status, final_of, fail_run, run_result,
  check_cancelled, check_before, finish_if_complete, run_cleanup, cleanup_step, run_drive,
  drive_step, run_download, download_step, run_stage, stage_step, check_after, run_pass,
  at_pass_limit, run_loop, exit_of, run,
}
use baidu_drive_mover.App.Pipeline.Honest.{IsHonest, run-IsHonest}
use baidu_drive_mover.App.Pipeline.Stops.{run-stops}
use baidu_drive_mover.App.Pipeline.Watermark.{strict, run-strict}

running : Unit {0}
unfolding complete has_drive_work has_download_work has_stage_work has_cleanup_work same_progress
    continue ◌>>=◌ return leave try_call read_progress give_up finish fail_status final_of fail_run
    run_result check_cancelled check_before finish_if_complete run_cleanup cleanup_step run_drive
    drive_step run_download download_step run_stage stage_step check_after run_pass at_pass_limit
    run_loop exit_of run
running = tt

-- One file waits to be staged.
abbrev one_file : PipelineProgress
one_file = record zero_progress {
  total = 1;
  discovered = 1;
  drive_root_ready = true;
  baidu_task_root_registered = true;
}

abbrev small_runner : PipelineRunner PipelineProgress ℕ
small_runner = record {
  progress = λ _ w. (w, ok w);
  update_task_status = λ _ _ _ w. (w, ok tt);
  cleanup = λ w. (
    record w {
      cleanup_pending = 0;
      done = w.done + w.cleanup_pending;
      baidu_task_root_cleaned = w.total == w.done;
    },
    ok (record {
      batches_done = 1;
      files_done = w.cleanup_pending;
      bytes_freed = 0;
      task_root_done = false;
    }),
  );
  drive = λ w. (
    record w { local_ready = 0; cleanup_pending = w.local_ready },
    ok (record { root_id = []; files_verified = w.local_ready; bytes_verified = 0 }),
  );
  download = λ w. (
    record w { baidu_staged = 0; local_ready = w.baidu_staged },
    ok (record { paused_by_watermark = false; files_ready = w.baidu_staged; bytes_ready = 0 }),
  );
  stage = λ available w. (record w { discovered = 0; baidu_staged = w.discovered }, ok tt);
  cancelled = λ _. none;
  is_pause = λ e. false;
  max_cache_bytes = 64;
  max_passes = 9;
}

-- The file is staged, downloaded, uploaded and cleaned in as many passes, and then the root.
abbrev moved : PipelineProgress
moved = record one_file { discovered = 0; done = 1; baidu_task_root_cleaned = true }

moves_one_file : run small_runner one_file ≡ (
  moved,
  (
    record zero_summary {
      passes = 5;
      batches_cleaned = 2;
      files_done = 1;
      files_verified = 1;
      files_ready = 1;
      final = moved;
    },
    none,
  ),
)
unfolding running
moves_one_file = refl

-- Files that wait for a retry and for nothing else stop the run.
abbrev waiting : PipelineProgress
waiting = record one_file { discovered = 0; failed_retryable = 1 }

stops_without_progress : (run small_runner waiting).1.1 ≡ some (RunError.no_progress waiting)
unfolding running
stops_without_progress = refl

run-IsHonest_example : let (w, (s, e)) = run small_runner waiting in IsHonest small_runner w s e
run-IsHonest_example = run-IsHonest small_runner waiting

run-strict_example : run (strict small_runner 0) one_file ≡ run small_runner one_file
run-strict_example = run-strict small_runner 0 one_file

-- A store that always reports one file to be staged.
abbrev stuck_runner : PipelineRunner PipelineProgress ℕ
stuck_runner = record small_runner { progress = λ _ w. (w, ok one_file) }

run-stops_example : (run stuck_runner one_file).1.0.passes ≤ 1
run-stops_example =
    run-stops stuck_runner one_file (λ c w w1 q e. sym (ok-eq (ap (λ x. x.1) e))) one_file
