-- ===== src/App/Pipeline.antt =====
-- internal/app/pipeline.go: PipelineRunner.Run, over the passes and the store that the runner has as
-- functions and as an interface. `W` is all that they act on, and `E` their errors.
pub mod Passes
pub mod Honest
pub mod Watermark
pub mod Stops
use baidu_drive_mover.Base.{
  ℕ, zero, suc, ◌+◌, ◌-◌, Bool, false, not, ◌&&◌, ◌||◌, Option, none, some, Result, ok, err,
  if◌then◌else◌, ltb, leb, ◌==◌,
}
use baidu_drive_mover.Text.{Str}
use baidu_drive_mover.World.{Context}
use baidu_drive_mover.State.Model.{TaskStatus}
use baidu_drive_mover.State.Progress.{
  PipelineProgress, complete, has_drive_work, has_download_work, has_stage_work, has_cleanup_work,
}

pub data RunError (E : Type 0) : Type 0 where
  watermark_not_positive scan_incomplete : RunError E
  permanent_failed : ℕ → RunError E
  pass_limit : ℕ → RunError E
  no_progress : PipelineProgress → RunError E
  cache_watermark : RunError E
  other : E → RunError E

pub record CleanupSummary : Type 0 where
  pub batches_done : ℕ
  pub files_done : ℕ
  pub bytes_freed : ℕ
  pub task_root_done : Bool

pub record DriveSummary : Type 0 where
  pub root_id : Str
  pub files_verified : ℕ
  pub bytes_verified : ℕ

pub record DownloadSummary : Type 0 where
  pub paused_by_watermark : Bool
  pub files_ready : ℕ
  pub bytes_ready : ℕ

pub record PipelineSummary : Type 0 where
  pub passes : ℕ
  pub batches_cleaned : ℕ
  pub files_done : ℕ
  pub bytes_freed : ℕ
  pub files_verified : ℕ
  pub bytes_verified : ℕ
  pub files_ready : ℕ
  pub bytes_ready : ℕ
  pub final : PipelineProgress

-- The fields of the runner for one task. A call returns what it acts on and its result; ctx.Err()
-- and the test of `fail` on an error are functions too.
pub record PipelineRunner (W E : Type 0) : Type 0 where
  pub progress : Context → W → W × Result E PipelineProgress
  pub update_task_status : Context → TaskStatus → Option (RunError E) → W → W × Result E (Unit {0})
  pub cleanup : W → W × Result E CleanupSummary
  pub drive : W → W × Result E DriveSummary
  pub download : W → W × Result E DownloadSummary
  pub stage : ℕ → W → W × Result E (Unit {0})
  pub cancelled : W → Option E
  pub is_pause : E → Bool
  pub max_cache_bytes : ℕ  -- 0 where it is not positive
  pub max_passes : ℕ  -- 0 where it is not positive

abbrev pub zero_progress : PipelineProgress
zero_progress = record {
  scan_incomplete = false;
  total = 0;
  discovered = 0;
  planned = 0;
  baidu_staging = 0;
  baidu_staged = 0;
  downloading = 0;
  local_ready = 0;
  drive_uploading = 0;
  drive_uploaded = 0;
  drive_verified = 0;
  cleanup_pending = 0;
  done = 0;
  failed_retryable = 0;
  failed_permanent = 0;
  reserved_cache = 0;
  drive_root_ready = false;
  baidu_task_root_registered = false;
  baidu_task_root_cleaned = false;
}

abbrev pub zero_summary : PipelineSummary
zero_summary = record {
  passes = 0;
  batches_cleaned = 0;
  files_done = 0;
  bytes_freed = 0;
  files_verified = 0;
  bytes_verified = 0;
  files_ready = 0;
  bytes_ready = 0;
  final = zero_progress;
}

-- `current == before`, field by field.
abbrev same_bool : Bool → Bool → Bool
same_bool a b = if a then b else not b

unfoldable pub same_progress : PipelineProgress → PipelineProgress → Bool
same_progress a b =
    same_bool a.scan_incomplete b.scan_incomplete
    && a.total == b.total
    && a.discovered == b.discovered
    && a.planned == b.planned
    && a.baidu_staging == b.baidu_staging
    && a.baidu_staged == b.baidu_staged
    && a.downloading == b.downloading
    && a.local_ready == b.local_ready
    && a.drive_uploading == b.drive_uploading
    && a.drive_uploaded == b.drive_uploaded
    && a.drive_verified == b.drive_verified
    && a.cleanup_pending == b.cleanup_pending
    && a.done == b.done
    && a.failed_retryable == b.failed_retryable
    && a.failed_permanent == b.failed_permanent
    && a.reserved_cache == b.reserved_cache
    && same_bool a.drive_root_ready b.drive_root_ready
    && same_bool a.baidu_task_root_registered b.baidu_task_root_registered
    && same_bool a.baidu_task_root_cleaned b.baidu_task_root_cleaned

abbrev pub with_final : PipelineProgress → PipelineSummary → PipelineSummary
with_final p s = record s { final = p }

-- What Run returns: the summary, and the error if there is one.
abbrev pub Exit : Type 0 → Type 0
Exit E = PipelineSummary × Option (RunError E)

-- A part of Run: it goes on with a value, or Run returns.
abbrev pub Run : Type 0 → Type 0 → Type 0 → Type 0
Run W E A = W → W × Result (Exit E) A

module _ {W E : Type 0} where
  unfoldable pub continue :
      {A B : Type 0} → (A → Run W E B) → W × Result (Exit E) A → W × Result (Exit E) B
  continue f (w, ok a) = f a w
  continue f (w, err x) = (w, err x)

  infixl 5 ◌>>=◌ ◌>>◌
  unfoldable pub ◌>>=◌ : {A B : Type 0} → Run W E A → (A → Run W E B) → Run W E B
  unfolding continue
  ◌>>=◌ m f w = continue f (m w)

  abbrev pub ◌>>◌ : {B : Type 0} → Run W E (Unit {0}) → Run W E B → Run W E B
  m >> k = m >>= λ _. k

  unfoldable pub return : {A : Type 0} → A → Run W E A
  return a w = (w, ok a)

  unfoldable pub leave : {A : Type 0} → PipelineSummary → Option (RunError E) → Run W E A
  leave s e w = (w, err (s, e))

  -- A call whose error Run returns with the summary.
  unfoldable pub try_call : {A : Type 0} → PipelineSummary → W × Result E A → W × Result (Exit E) A
  try_call s (w, ok a) = (w, ok a)
  try_call s (w, err e) = (w, err (s, some (RunError.other e)))

module _ {W E : Type 0} (r : PipelineRunner W E) where
  unfoldable pub read_progress : PipelineSummary → Run W E PipelineProgress
  read_progress s w = try_call s (r.progress Context.caller w)

  -- The status is recorded whatever comes of it, and Run returns the error.
  unfoldable pub give_up : {A : Type 0} → TaskStatus → RunError E → PipelineSummary → Run W E A
  give_up status e s w =
      leave s (some e) (r.update_task_status Context.background status (some e) w).0

  -- The task is completed, and Run returns without an error.
  unfoldable pub finish : {A : Type 0} → PipelineSummary → PipelineProgress → Run W E A
  finish s current = do
    _ ← (λ w. try_call s (r.update_task_status Context.caller TaskStatus.completed none w))
    leave (with_final current s) none

  -- `fail`: the error of a pass; the progress is read once more.
  unfoldable pub fail_status : E → W → TaskStatus
  fail_status e w =
      if r.is_pause e
      then TaskStatus.paused
      else elim (r.cancelled w) [ some _ ↦ TaskStatus.paused | none ↦ TaskStatus.blocked ]

  unfoldable pub final_of : PipelineSummary → Result E PipelineProgress → PipelineSummary
  final_of s (ok p) = with_final p s
  final_of s (err e) = s

  unfoldable pub fail_run : {A : Type 0} → PipelineSummary → E → Run W E A
  fail_run s e w =
      let w1 =
        (r.update_task_status Context.background (fail_status e w) (some (RunError.other e)) w).0 in
      let (w2, p) = r.progress Context.background w1 in
      leave (final_of s p) (some (RunError.other e)) w2

  -- A pass; its error goes to `fail`.
  unfoldable pub run_result :
      {A : Type 0} → PipelineSummary → W × Result E A → W × Result (Exit E) A
  run_result s (w, ok a) = (w, ok a)
  run_result s (w, err e) = fail_run s e w

  unfoldable pub check_cancelled : PipelineSummary → Run W E (Unit {0})
  check_cancelled s w = elim (r.cancelled w) [
    | none ↦ return tt w
    | some e ↦ give_up TaskStatus.paused (RunError.other e) s w
  ]

  -- The tests in front of a pass.
  unfoldable pub check_before : PipelineSummary → PipelineProgress → Run W E (Unit {0})
  check_before s before =
      if before.scan_incomplete
      then give_up TaskStatus.blocked RunError.scan_incomplete (with_final before s)
      else if ltb 0 before.failed_permanent
      then give_up TaskStatus.failed (RunError.permanent_failed before.failed_permanent)
          (with_final before s)
      else if complete before
      then finish s before
      else return tt

  unfoldable pub finish_if_complete : PipelineSummary → PipelineProgress → Run W E (Unit {0})
  finish_if_complete s current = if complete current then finish s current else return tt

  -- Each step returns the summary and the progress after it.
  unfoldable pub run_cleanup : PipelineSummary → Run W E (PipelineSummary × PipelineProgress)
  run_cleanup s = do
    c ← (λ w. run_result s (r.cleanup w))
    let s1 = record s {
      batches_cleaned = s.batches_cleaned + c.batches_done;
      files_done = s.files_done + c.files_done;
      bytes_freed = s.bytes_freed + c.bytes_freed;
    }
    current ← read_progress s1
    finish_if_complete s1 current
    return (s1, current)

  unfoldable pub cleanup_step :
      PipelineSummary → PipelineProgress → Run W E (PipelineSummary × PipelineProgress)
  cleanup_step s current = if has_cleanup_work current then run_cleanup s else return (s, current)

  unfoldable pub run_drive : PipelineSummary → Run W E (PipelineSummary × PipelineProgress)
  run_drive s = do
    d ← (λ w. run_result s (r.drive w))
    let s1 = record s {
      files_verified = s.files_verified + d.files_verified;
      bytes_verified = s.bytes_verified + d.bytes_verified;
    }
    current ← read_progress s1
    return (s1, current)

  unfoldable pub drive_step :
      PipelineSummary → PipelineProgress → Run W E (PipelineSummary × PipelineProgress)
  drive_step s current =
      if has_drive_work current || (current.total == 0 && not current.drive_root_ready)
      then run_drive s
      else return (s, current)

  unfoldable pub run_download :
      PipelineSummary → Run W E (PipelineSummary × PipelineProgress × Bool)
  run_download s = do
    d ← (λ w. run_result s (r.download w))
    let s1 = record s {
      files_ready = s.files_ready + d.files_ready;
      bytes_ready = s.bytes_ready + d.bytes_ready;
    }
    current ← read_progress s1
    return (s1, current, d.paused_by_watermark)

  -- The Boolean is `downloadPausedByWatermark`.
  unfoldable pub download_step :
      PipelineSummary → PipelineProgress → Run W E (PipelineSummary × PipelineProgress × Bool)
  download_step s current =
      if has_download_work current then run_download s else return (s, current, false)

  unfoldable pub run_stage : PipelineSummary → ℕ → Run W E PipelineProgress
  run_stage s available = do _ ← (λ w. run_result s (r.stage available w)); read_progress s

  -- `available` is positive where the watermark is above the reserved cache.
  unfoldable pub stage_step : PipelineSummary → PipelineProgress → Bool → Run W E PipelineProgress
  stage_step s current paused =
      if not paused && ltb current.reserved_cache r.max_cache_bytes && has_stage_work current
      then run_stage s (r.max_cache_bytes - current.reserved_cache)
      else return current

  -- The tests behind a pass.
  unfoldable pub check_after :
      PipelineSummary → PipelineProgress → PipelineProgress → Bool → Run W E (Unit {0})
  check_after s before current paused =
      if ltb 0 current.failed_permanent
      then give_up TaskStatus.failed (RunError.permanent_failed current.failed_permanent)
          (with_final current s)
      else if complete current
      then finish s current
      else if same_progress current before
      then (if paused || (has_stage_work current && leb r.max_cache_bytes current.reserved_cache)
          then give_up TaskStatus.paused RunError.cache_watermark (with_final current s)
          else give_up TaskStatus.blocked (RunError.no_progress current) (with_final current s))
      else return tt

  -- The body of the loop.
  unfoldable pub run_pass : ℕ → PipelineSummary → Run W E PipelineSummary
  run_pass pass s = do
    check_cancelled s
    before ← read_progress s
    check_before s before
    (s1, c1) ← cleanup_step (record s { passes = pass }) before
    (s2, c2) ← drive_step s1 c1
    (s3, c3, paused) ← download_step s2 c2
    c4 ← stage_step s3 c3 paused
    check_after s3 before c4 paused
    return s3

  unfoldable pub at_pass_limit : ℕ → PipelineSummary → Run W E (Unit {0})
  at_pass_limit max_passes s = do
    p ← read_progress s
    give_up TaskStatus.blocked (RunError.pass_limit max_passes) (with_final p s)

  -- `for pass := 1; pass <= maxPasses; pass++`: the first number is that of the passes left.
  unfoldable pub run_loop : ℕ → ℕ → ℕ → PipelineSummary → Run W E (Unit {0})
  run_loop zero max_passes pass s = at_pass_limit max_passes s
  run_loop (suc left) max_passes pass s = do
    s1 ← run_pass pass s
    run_loop left max_passes (pass + 1) s1

  abbrev pub pass_limit_of : ℕ
  pass_limit_of = if r.max_passes == 0 then 100000 else r.max_passes

  -- The loop never goes on to a value, so that the second clause is not reached.
  unfoldable pub exit_of : W × Result (Exit E) (Unit {0}) → W × Exit E
  exit_of (w, err x) = (w, x)
  exit_of (w, ok _) = (w, (zero_summary, none))

  unfoldable pub run : W → W × Exit E
  run w =
      if r.max_cache_bytes == 0
      then (w, (zero_summary, some RunError.watermark_not_positive))
      else exit_of (run_loop pass_limit_of pass_limit_of 1 zero_summary w)
