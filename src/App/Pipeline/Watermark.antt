-- ===== src/App/Pipeline/Watermark.antt =====
-- The watermark of PipelineRunner.Run (internal/app/pipeline.go): what a staging pass may ask for.
use baidu_drive_mover.Base.{
  ◌==◌, some, ℕ, zero, suc, ◌+◌, ◌-◌, ◌≡◌, refl, ap, ◌∙◌, Bool, true, not, ◌&&◌, Bool-cases, inl,
  inr, err, arith, if◌then◌else◌, ltb, leb,
}
use baidu_drive_mover.State.Progress.{PipelineProgress, has_stage_work}
use baidu_drive_mover.App.Pipeline.{
  RunError, PipelineSummary, PipelineRunner, ◌>>=◌, run_stage, stage_step, run_pass, run_loop, run,
  run_result, read_progress, fail_run, fail_status, final_of, check_cancelled, check_before,
  cleanup_step, run_cleanup, drive_step, run_drive, download_step, run_download, check_after,
  finish_if_complete, give_up, finish, at_pass_limit, exit_of, zero_summary, pass_limit_of,
}

module _ {W E : Type 0} (r : PipelineRunner W E) (refusal : E) where
  abbrev is_within_watermark : ℕ → Bool
  is_within_watermark available = ltb 0 available && leb available r.max_cache_bytes

  -- The runner whose staging pass refuses to be called with no bytes, or with more than the
  -- watermark.
  abbrev pub strict : PipelineRunner W E
  strict = record r {
    stage = λ available w.
        if is_within_watermark available then r.stage available w else (w, err refusal);
  }

  run_stage-strict :
      (s : PipelineSummary) (available : ℕ)
      → is_within_watermark available ≡ true
      → run_stage strict s available ≡ run_stage r s available
  unfolding run_stage run_result read_progress fail_run fail_status final_of
  run_stage-strict s available h = rw h refl

  test_room :
      (paused work : Bool) (reserved max : ℕ)
      → (not paused && ltb reserved max && work) ≡ true
      → (ltb 0 (max - reserved) && leb (max - reserved) max) ≡ true
  test_room paused work reserved max h = ground arith

  stage_step-strict :
      (s : PipelineSummary) (p : PipelineProgress) (paused : Bool)
      → stage_step strict s p paused ≡ stage_step r s p paused
  unfolding stage_step
  stage_step-strict s p paused =
      elim (Bool-cases (not paused && ltb p.reserved_cache r.max_cache_bytes && has_stage_work p)) [
        | inr skipped ↦ rw skipped refl
        | inl taken ↦ rw taken (
            run_stage-strict s (r.max_cache_bytes - p.reserved_cache)
              (test_room paused (has_stage_work p) p.reserved_cache r.max_cache_bytes taken))
      ]

  stage_steps-strict : stage_step strict ≡ stage_step r
  stage_steps-strict = λ i s p paused. stage_step-strict s p paused i

  run_pass-strict : (pass : ℕ) (s : PipelineSummary) → run_pass strict pass s ≡ run_pass r pass s
  unfolding run_pass check_cancelled read_progress check_before cleanup_step run_cleanup drive_step
      run_drive download_step run_download check_after finish_if_complete give_up finish run_result
      fail_run fail_status final_of
  run_pass-strict pass s = rw stage_steps-strict refl

  run_loop-strict :
      (left max_passes pass : ℕ) (s : PipelineSummary)
      → run_loop strict left max_passes pass s ≡ run_loop r left max_passes pass s
  unfolding run_loop at_pass_limit read_progress give_up
  run_loop-strict zero max_passes pass s = refl
  run_loop-strict (suc left) max_passes pass s =
      ap (λ m. m >>= λ s1. run_loop strict left max_passes (pass + 1) s1) (run_pass-strict pass s)
      ∙ ap (λ k. run_pass r pass s >>= k) (λ i s1. run_loop-strict left max_passes (pass + 1) s1 i)

  -- Run never calls the staging pass without bytes or with more bytes than the watermark: a runner
  -- whose staging pass refuses such a call, with any error, runs as the runner itself.
  pub run-strict : (w : W) → run strict w ≡ run r w
  unfolding run exit_of
  run-strict w =
      ap
        (λ m.
          if r.max_cache_bytes == 0
          then (w, (zero_summary, some RunError.watermark_not_positive))
          else exit_of r m)
        (λ i. run_loop-strict (pass_limit_of r) (pass_limit_of r) 1 zero_summary i w)
