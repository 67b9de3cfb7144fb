-- ===== src/App/Pipeline/Stops.antt =====
-- PipelineRunner.Run (internal/app/pipeline.go) stops when a pass brings no progress.
use baidu_drive_mover.Base.{
  ℕ, zero, suc, ◌-◌, ◌≤◌, ◌≡◌, refl, sym, ◌∙◌, ap, Bool, true, false, not, ◌&&◌, ◌||◌, Option, none,
  some, Result, ok, err, arith, if◌then◌else◌, ltb, leb, ◌==◌, Bool-cases, inl, inr,
}
use baidu_drive_mover.State.Model.{TaskStatus}
use baidu_drive_mover.State.Progress.{
  PipelineProgress, complete, has_drive_work, has_download_work, has_stage_work, has_cleanup_work,
}
use baidu_drive_mover.World.{Context}
use baidu_drive_mover.App.Pipeline.{
  RunError, PipelineSummary, PipelineRunner, with_final, zero_summary, same_progress, Exit, Run,
  continue, ◌>>=◌, return, leave, try_call, read_progress, give_up, finish, final_of, fail_run,
  run_result, check_cancelled, check_before, finish_if_complete, run_cleanup, cleanup_step,
  run_drive, drive_step, run_download, download_step, run_stage, stage_step, check_after, run_pass,
  at_pass_limit, run_loop, pass_limit_of, exit_of, run,
}

module _ {W E : Type 0} (r : PipelineRunner W E) (p : PipelineProgress)
    (still : (c : Context) (w : W) (w1 : W) (q : PipelineProgress)
      → r.progress c w ≡ (w1, ok q)
      → q ≡ p) where
  -- Where Run leaves it has made one pass at most; where it goes on, `P` holds of the value.
  abbrev Outcome : {A : Type 0} → (A → Type 0) → W × Result (Exit E) A → Type 0
  Outcome P (w, ok a) = P a
  Outcome P (w, err (s, e)) = s.passes ≤ 1

  record Keeps {A : Type 0} (P : A → Type 0) (m : Run W E A) : Type 0 where
    pub holds : (w : W) → Outcome P (m w)

  bind-Keeps :
      {A B : Type 0} (P : A → Type 0) (Q : B → Type 0) (m : Run W E A) (f : A → Run W E B)
      → Keeps P m
      → ((a : A) → P a → Keeps Q (f a))
      → Keeps Q (m >>= f)
  unfolding ◌>>=◌ continue
  bind-Keeps {A} {B} P Q m f first later = record { holds = λ w. go (m w) (first.holds w) }
    where
      go : (x : W × Result (Exit E) A) → Outcome P x → Outcome Q (continue f x)
      go (w, ok a) h = (later a h).holds w
      go (w, err x) h = h

  return-Keeps : {A : Type 0} (P : A → Type 0) (a : A) → P a → Keeps P (return {W = W} {E = E} a)
  unfolding return
  return-Keeps P a h = record { holds = λ w. h }

  if-Keeps :
      {A : Type 0} (P : A → Type 0) (b : Bool) (m k : Run W E A)
      → Keeps P m
      → Keeps P k
      → Keeps P (if b then m else k)
  if-Keeps P true m k hm hk = hm
  if-Keeps P false m k hm hk = hk

  -- The progress that is read is always the same.
  read_progress-Keeps :
      (s : PipelineSummary) → s.passes ≤ 1 → Keeps (λ q. q ≡ p) (read_progress r s)
  unfolding read_progress try_call
  read_progress-Keeps s few = record { holds = λ w. go w (r.progress Context.caller w) refl }
    where
      go :
          (w : W) (x : W × Result E PipelineProgress)
          → r.progress Context.caller w ≡ x
          → Outcome (λ q. q ≡ p) (try_call s x)
      go w (w1, ok q) e = still Context.caller w w1 q e
      go w (w1, err _) e = few

  give_up-Keeps :
      {A : Type 0} (P : A → Type 0) (status : TaskStatus) (e : RunError E) (s : PipelineSummary)
      → s.passes ≤ 1
      → Keeps P (give_up r status e s)
  unfolding give_up leave
  give_up-Keeps P status e s few = record { holds = λ w. few }

  finish-Keeps :
      {A : Type 0} (P : A → Type 0) (s : PipelineSummary) (q : PipelineProgress)
      → s.passes ≤ 1
      → Keeps P (finish r s q)
  unfolding finish ◌>>=◌ continue try_call leave
  finish-Keeps {A} P s q few = record {
    holds = λ w. go (r.update_task_status Context.caller TaskStatus.completed none w);
  }
    where
      go :
          (x : W × Result E (Unit {0}))
          → Outcome P
              (continue {A = Unit {0}} (λ _. leave {A = A} (with_final q s) none) (try_call s x))
      go (w, ok tt) = few
      go (w, err _) = few

  pass-Keeps :
      {A : Type 0} (s : PipelineSummary) (pass : W → W × Result E A)
      → s.passes ≤ 1
      → Keeps (λ _. Unit {0}) (λ w. run_result r s (pass w))
  unfolding run_result fail_run leave final_of
  pass-Keeps {A} s pass few = record { holds = λ w. go (pass w) }
    where
      final : (x : Result E PipelineProgress) → (final_of r s x).passes ≤ 1
      final (ok q) = few
      final (err _) = few

      go : (x : W × Result E A) → Outcome (λ _. Unit {0}) (run_result r s x)
      go (w, ok a) = tt
      go (w, err e) = final _

  -- After a step the summary counts one pass at most, and the progress is the same.
  abbrev Same : PipelineSummary × PipelineProgress → Type 0
  Same (s, q) = (s.passes ≤ 1) × (q ≡ p)

  finish_if_complete-Keeps :
      (s : PipelineSummary) (q : PipelineProgress)
      → s.passes ≤ 1
      → Keeps (λ _. Unit {0}) (finish_if_complete r s q)
  unfolding finish_if_complete
  finish_if_complete-Keeps s q few =
      if-Keeps _ (complete q) _ _ (finish-Keeps _ s q few) (return-Keeps _ tt tt)

  run_cleanup-Keeps : (s : PipelineSummary) → s.passes ≤ 1 → Keeps Same (run_cleanup r s)
  unfolding run_cleanup
  run_cleanup-Keeps s few = bind-Keeps _ Same _ _ (pass-Keeps s r.cleanup few) (λ c _.
      bind-Keeps _ Same _ _ (read_progress-Keeps _ few) (λ q same.
        bind-Keeps _ Same _ _ (finish_if_complete-Keeps _ q few)
          (λ _ _. return-Keeps Same _ (few, same))))

  cleanup_step-Keeps :
      (s : PipelineSummary) (q : PipelineProgress)
      → s.passes ≤ 1
      → q ≡ p
      → Keeps Same (cleanup_step r s q)
  unfolding cleanup_step
  cleanup_step-Keeps s q few same =
      if-Keeps Same (has_cleanup_work q) _ _ (run_cleanup-Keeps s few)
        (return-Keeps Same (s, q) (few, same))

  run_drive-Keeps : (s : PipelineSummary) → s.passes ≤ 1 → Keeps Same (run_drive r s)
  unfolding run_drive
  run_drive-Keeps s few = bind-Keeps _ Same _ _ (pass-Keeps s r.drive few) (λ d _.
      bind-Keeps _ Same _ _ (read_progress-Keeps _ few) (λ q same. return-Keeps Same _ (few, same)))

  drive_step-Keeps :
      (s : PipelineSummary) (q : PipelineProgress)
      → s.passes ≤ 1
      → q ≡ p
      → Keeps Same (drive_step r s q)
  unfolding drive_step
  drive_step-Keeps s q few same =
      if-Keeps Same (has_drive_work q || (q.total == 0 && not q.drive_root_ready)) _ _
        (run_drive-Keeps s few) (return-Keeps Same (s, q) (few, same))

  abbrev SameAfterDownload : PipelineSummary × PipelineProgress × Bool → Type 0
  SameAfterDownload (s, q, _) = (s.passes ≤ 1) × (q ≡ p)

  run_download-Keeps :
      (s : PipelineSummary) → s.passes ≤ 1 → Keeps SameAfterDownload (run_download r s)
  unfolding run_download
  run_download-Keeps s few =
      bind-Keeps _ SameAfterDownload _ _ (pass-Keeps s r.download few) (λ d _.
        bind-Keeps _ SameAfterDownload _ _ (read_progress-Keeps _ few)
          (λ q same. return-Keeps SameAfterDownload _ (few, same)))

  download_step-Keeps :
      (s : PipelineSummary) (q : PipelineProgress)
      → s.passes ≤ 1
      → q ≡ p
      → Keeps SameAfterDownload (download_step r s q)
  unfolding download_step
  download_step-Keeps s q few same =
      if-Keeps SameAfterDownload (has_download_work q) _ _ (run_download-Keeps s few)
        (return-Keeps SameAfterDownload (s, q, false) (few, same))

  run_stage-Keeps :
      (s : PipelineSummary) (available : ℕ)
      → s.passes ≤ 1
      → Keeps (λ q. q ≡ p) (run_stage r s available)
  unfolding run_stage
  run_stage-Keeps s available few =
      bind-Keeps _ (λ q. q ≡ p) _ _ (pass-Keeps s (r.stage available) few)
        (λ _ _. read_progress-Keeps s few)

  stage_step-Keeps :
      (s : PipelineSummary) (q : PipelineProgress) (paused : Bool)
      → s.passes ≤ 1
      → q ≡ p
      → Keeps (λ q. q ≡ p) (stage_step r s q paused)
  unfolding stage_step
  stage_step-Keeps s q paused few same =
      if-Keeps (λ q. q ≡ p)
        (not paused && ltb q.reserved_cache r.max_cache_bytes && has_stage_work q) _ _
        (run_stage-Keeps s (r.max_cache_bytes - q.reserved_cache) few)
        (return-Keeps (λ q. q ≡ p) q same)

  check_cancelled-Keeps :
      (s : PipelineSummary) → s.passes ≤ 1 → Keeps (λ _. Unit {0}) (check_cancelled r s)
  unfolding check_cancelled return give_up leave
  check_cancelled-Keeps s few = record { holds = λ w. go w (r.cancelled w) }
    where
      go :
          (w : W) (o : Option E)
          → Outcome {A = Unit {0}}
              (λ _. Unit {0})
              (elim o [
                | none ↦ return tt w
                | some e ↦ give_up r TaskStatus.paused (RunError.other e) s w
              ])
      go w none = tt
      go w (some e) = few

  check_before-Keeps :
      (s : PipelineSummary) (q : PipelineProgress)
      → s.passes ≤ 1
      → Keeps (λ _. Unit {0}) (check_before r s q)
  unfolding check_before
  check_before-Keeps s q few = if-Keeps _ q.scan_incomplete _ _ (give_up-Keeps _ _ _ _ few) (
      if-Keeps _ (ltb 0 q.failed_permanent) _ _ (give_up-Keeps _ _ _ _ few)
        (if-Keeps _ (complete q) _ _ (finish-Keeps _ s q few) (return-Keeps _ tt tt)))

  same_progress_refl : (q : PipelineProgress) → same_progress q q ≡ true
  unfolding same_progress
  same_progress_refl q = ground arith

  -- The same progress before and after a pass ends the run.
  check_after-Keeps :
      (s : PipelineSummary) (before q : PipelineProgress) (paused : Bool)
      → s.passes ≤ 1
      → same_progress q before ≡ true
      → Keeps (λ _. ⊥) (check_after r s before q paused)
  unfolding check_after
  check_after-Keeps s before q paused few same =
      if-Keeps _ (ltb 0 q.failed_permanent) _ _ (give_up-Keeps _ _ _ _ few) (
        if-Keeps _ (complete q) _ _ (finish-Keeps _ s q few) (
          rw same (
            if-Keeps _ (paused || (has_stage_work q && leb r.max_cache_bytes q.reserved_cache)) _ _
              (give_up-Keeps _ _ _ _ few) (give_up-Keeps _ _ _ _ few))))

  run_pass-Keeps : (s : PipelineSummary) → s.passes ≤ 1 → Keeps (λ _. ⊥) (run_pass r 1 s)
  unfolding run_pass
  run_pass-Keeps s few = bind-Keeps _ _ _ _ (check_cancelled-Keeps s few) (λ _ _.
      bind-Keeps _ _ _ _ (read_progress-Keeps s few) (λ before e0.
        bind-Keeps _ _ _ _ (check_before-Keeps s before few) (λ _ _.
          bind-Keeps Same _ _ _
            (cleanup_step-Keeps (record s { passes = 1 }) before (omega arith) e0)
            (λ (s1, c1) (f1, e1).
              bind-Keeps Same _ _ _ (drive_step-Keeps s1 c1 f1 e1) (λ (s2, c2) (f2, e2).
                bind-Keeps SameAfterDownload _ _ _ (download_step-Keeps s2 c2 f2 e2)
                  (λ (s3, c3, paused) (f3, e3).
                    bind-Keeps _ _ _ _ (stage_step-Keeps s3 c3 paused f3 e3) (λ c4 e4.
                      bind-Keeps (λ _. ⊥) _ _ _
                        (check_after-Keeps s3 before c4 paused f3 (
                          ap (λ q. same_progress q before) (e4 ∙ sym e0)
                          ∙ same_progress_refl before))
                        (λ _ never. absurd never))))))))

  run_loop-Keeps :
      (left max_passes : ℕ) → Keeps (λ _. Unit {0}) (run_loop r left max_passes 1 zero_summary)
  unfolding run_loop at_pass_limit
  run_loop-Keeps zero max_passes =
      bind-Keeps _ _ _ _ (read_progress-Keeps zero_summary (omega arith))
        (λ q _. give_up-Keeps _ _ _ _ (omega arith))
  run_loop-Keeps (suc left) max_passes =
      bind-Keeps (λ _. ⊥) _ _ _ (run_pass-Keeps zero_summary (omega arith))
        (λ _ never. absurd never)

  exit_of-few :
      (x : W × Result (Exit E) (Unit {0}))
      → Outcome (λ _. Unit {0}) x
      → (exit_of r x).1.0.passes ≤ 1
  unfolding exit_of
  exit_of-few (w, err x) h = h
  exit_of-few (w, ok a) h = omega arith

  -- If the progress that the store reports never changes, whatever the passes do and report, then
  -- Run makes one pass at most, for any limit of passes.
  pub run-stops : (w : W) → (run r w).1.0.passes ≤ 1
  unfolding run
  run-stops w = elim (Bool-cases (r.max_cache_bytes == 0)) [
    | inl unset ↦ rw unset (omega arith)
    | inr set ↦
        rw set (exit_of-few _ ((run_loop-Keeps (pass_limit_of r) (pass_limit_of r)).holds w))
  ]
