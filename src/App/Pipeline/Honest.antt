-- ===== src/App/Pipeline/Honest.antt =====
-- What PipelineRunner.Run (internal/app/pipeline.go) reports is true of the progress that it reports.
use baidu_drive_mover.Base.{
  err≢ok, ap, sym, ◌≤◌, ◌⊎◌, ==→eq, Bool-cases, inl, inr, ◌-◌, ℕ, zero, suc, ◌+◌, ◌<◌, ◌≡◌, refl,
  Bool, true, false, not, ◌&&◌, ◌||◌, Option, none, some, Result, ok, err, arith, if◌then◌else◌,
  ltb, leb, ◌==◌, ltb→lt,
}
use mathlib.Core.Path.{subst₂}
use baidu_drive_mover.State.Model.{TaskStatus}
use baidu_drive_mover.State.Progress.{
  PipelineProgress, complete, has_drive_work, has_download_work, has_stage_work, has_cleanup_work,
}
use baidu_drive_mover.World.{Context}
use baidu_drive_mover.App.Pipeline.Passes.{Gives-ok, run_pass-Counts}
use baidu_drive_mover.App.Pipeline.{
  RunError, PipelineSummary, PipelineRunner, with_final, zero_summary, same_progress, Exit, Run,
  continue, ◌>>=◌, return, leave, try_call, read_progress, give_up, finish, fail_run, run_result,
  check_cancelled, check_before, finish_if_complete, run_cleanup, cleanup_step, run_drive,
  drive_step, run_download, download_step, run_stage, stage_step, check_after, run_pass,
  at_pass_limit, run_loop, pass_limit_of, exit_of, run,
}

module _ {W E : Type 0} (r : PipelineRunner W E) where
  -- A pass that ran to its end and was the last: it read the progress `before` at its start, its
  -- steps returned one after the other, with `current` as the last progress and `paused` from the
  -- download, and then Run recorded the status with the error and returned with this world and
  -- summary.
  pub record LastPass (before current : PipelineProgress) (paused : Bool) (status : TaskStatus)
      (w : W) (s : PipelineSummary) (e : RunError E) : Type 0 where
    pub pass : ℕ
    pub at_start : PipelineSummary
    pub s1 : PipelineSummary
    pub s2 : PipelineSummary
    pub s3 : PipelineSummary
    pub c1 : PipelineProgress
    pub c2 : PipelineProgress
    pub c3 : PipelineProgress
    pub w0 : W
    pub w1 : W
    pub w2 : W
    pub w3 : W
    pub w4 : W
    pub w5 : W
    pub w6 : W
    pub reads : read_progress r at_start w0 ≡ (w1, ok before)
    pub goes_on : check_before r at_start before w1 ≡ (w2, ok tt)
    pub cleans : cleanup_step r (record at_start { passes = pass }) before w2 ≡ (w3, ok (s1, c1))
    pub uploads : drive_step r s1 c1 w3 ≡ (w4, ok (s2, c2))
    pub downloads : download_step r s2 c2 w4 ≡ (w5, ok (s3, c3, paused))
    pub stages : stage_step r s3 c3 paused w5 ≡ (w6, ok current)
    pub records : w ≡ (r.update_task_status Context.background status (some e) w6).0
    pub sums_up : s ≡ with_final current s3

  -- The cache has no room for more work of the staging.
  abbrev pub IsFull : PipelineProgress → Type 0
  IsFull p = (has_stage_work p ≡ true) × (r.max_cache_bytes ≤ p.reserved_cache)

  -- What an error says of the final world and the summary.
  abbrev pub Claim : W → PipelineSummary → RunError E → Type 0
  Claim w s RunError.watermark_not_positive = r.max_cache_bytes ≡ 0
  Claim w s RunError.scan_incomplete = s.final.scan_incomplete ≡ true
  Claim w s (RunError.permanent_failed n) = (s.final.failed_permanent ≡ n) × (0 < n)
  Claim w s (RunError.pass_limit n) = (n ≡ pass_limit_of r) × (s.passes ≡ n)
  Claim w s (RunError.no_progress p) =
      (s.final ≡ p)
      × (complete p ≡ false)
      × (p.failed_permanent ≡ 0)
      × (¬ IsFull p)
      × LastPass p p false TaskStatus.blocked w s (RunError.no_progress p)
  Claim w s RunError.cache_watermark =
      (complete s.final ≡ false)
      × (s.final.failed_permanent ≡ 0)
      × ((paused : Bool) × ((paused ≡ true) ⊎ IsFull s.final)
          × LastPass s.final s.final paused TaskStatus.paused w s RunError.cache_watermark)
  Claim w s (RunError.other e) = Unit

  -- Without an error the progress is complete, and the last thing done is to record that.
  abbrev pub IsHonest : W → PipelineSummary → Option (RunError E) → Type 0
  IsHonest w s (some e) = Claim w s e
  IsHonest w s none =
      (complete s.final ≡ true)
      × ((before : W) × (r.update_task_status Context.caller TaskStatus.completed none before
            ≡ (w, ok tt)))

  -- What holds of a result, if Run returns with it.
  abbrev HonestExit : {A : Type 0} → W × Result (Exit E) A → Type 0
  HonestExit (w, ok _) = Unit
  HonestExit (w, err (s, e)) = IsHonest w s e

  record Ends {A : Type 0} (m : Run W E A) : Type 0 where
    pub holds : (w : W) → HonestExit (m w)

  bind-Ends :
      {A B : Type 0} (m : Run W E A) (f : A → Run W E B)
      → Ends m
      → ((a : A) → Ends (f a))
      → Ends (m >>= f)
  unfolding ◌>>=◌ continue
  bind-Ends {A} {B} m f first later = record { holds = λ w. go (m w) (first.holds w) }
    where
      go : (x : W × Result (Exit E) A) → HonestExit x → HonestExit (continue f x)
      go (w, ok a) h = (later a).holds w
      go (w, err x) h = h

  return-Ends : {A : Type 0} (a : A) → Ends (return {W = W} {E = E} a)
  unfolding return
  return-Ends a = record { holds = λ w. tt }

  try_call-HonestExit :
      {A : Type 0} (s : PipelineSummary) (x : W × Result E A) → HonestExit (try_call s x)
  unfolding try_call
  try_call-HonestExit s (w, ok a) = tt
  try_call-HonestExit s (w, err e) = tt

  read_progress-Ends : (s : PipelineSummary) → Ends (read_progress r s)
  unfolding read_progress
  read_progress-Ends s = record { holds = λ w. try_call-HonestExit s (r.progress Context.caller w) }

  give_up-Ends :
      {A : Type 0} (status : TaskStatus) (e : RunError E) (s : PipelineSummary)
      → ((w : W) → Claim w s e)
      → Ends (give_up r {A = A} status e s)
  unfolding give_up leave
  give_up-Ends status e s claim = record { holds = λ w. claim _ }

  finish-Ends :
      {A : Type 0} (s : PipelineSummary) (p : PipelineProgress)
      → complete p ≡ true
      → Ends (finish r {A = A} s p)
  unfolding finish ◌>>=◌ continue try_call leave
  finish-Ends {A} s p done_ = record {
    holds = λ w. go w (r.update_task_status Context.caller TaskStatus.completed none w) refl;
  }
    where
      go :
          (w : W) (x : W × Result E (Unit {0}))
          → r.update_task_status Context.caller TaskStatus.completed none w ≡ x
          → HonestExit
              (continue {A = Unit {0}} (λ _. leave {A = A} (with_final p s) none) (try_call s x))
      go w (w1, ok tt) e = (done_, (w, e))
      go w (w1, err _) e = tt

  run_result-HonestExit :
      {A : Type 0} (s : PipelineSummary) (x : W × Result E A) → HonestExit (run_result r s x)
  unfolding run_result fail_run leave
  run_result-HonestExit s (w, ok a) = tt
  run_result-HonestExit s (w, err e) = tt

  pass-Ends :
      {A : Type 0} (s : PipelineSummary) (pass : W → W × Result E A)
      → Ends (λ w. run_result r s (pass w))
  pass-Ends s pass = record { holds = λ w. run_result-HonestExit s (pass w) }

  check_cancelled-Ends : (s : PipelineSummary) → Ends (check_cancelled r s)
  unfolding check_cancelled return give_up leave
  check_cancelled-Ends s = record { holds = λ w. go w (r.cancelled w) }
    where
      go :
          (w : W) (o : Option E)
          → HonestExit {A = Unit {0}} (elim o [
            | none ↦ return tt w
            | some e ↦ give_up r TaskStatus.paused (RunError.other e) s w
          ])
      go w none = tt
      go w (some e) = tt

  if-Ends :
      {A : Type 0} (b : Bool) (m k : Run W E A)
      → (b ≡ true → Ends m)
      → (b ≡ false → Ends k)
      → Ends (if b then m else k)
  if-Ends true m k yes_ no_ = yes_ refl
  if-Ends false m k yes_ no_ = no_ refl

  finish_if_complete-Ends :
      (s : PipelineSummary) (p : PipelineProgress) → Ends (finish_if_complete r s p)
  unfolding finish_if_complete
  finish_if_complete-Ends s p = if-Ends (complete p) _ _ (finish-Ends s p) (λ _. return-Ends tt)

  check_before-Ends : (s : PipelineSummary) (p : PipelineProgress) → Ends (check_before r s p)
  unfolding check_before
  check_before-Ends s p =
      if-Ends p.scan_incomplete _ _ (λ unscanned. give_up-Ends _ _ _ (λ _. unscanned))
        (λ _.
          if-Ends (ltb 0 p.failed_permanent) _ _
            (λ failed. give_up-Ends _ _ _ (λ _. (refl, ltb→lt 0 p.failed_permanent failed)))
            (λ _. if-Ends (complete p) _ _ (finish-Ends s p) (λ _. return-Ends tt)))

  none_failed : (n : ℕ) → ltb 0 n ≡ false → n ≡ 0
  none_failed n h = ground arith

  same_progress-eq : (a b : PipelineProgress) → same_progress a b ≡ true → a ≡ b
  unfolding same_progress
  same_progress-eq a b h = ground arith

  LastPass-same :
      {before p : PipelineProgress} {paused paused' : Bool} {status : TaskStatus} {w : W}
      {s : PipelineSummary} {e : RunError E}
      → before ≡ p
      → paused ≡ paused'
      → LastPass before p paused status w s e
      → LastPass p p paused' status w s e
  LastPass-same {p = p} {status = status} {w = w} {s = s} {e = e} same flag =
      subst₂ (λ q b. LastPass q p b status w s e) same flag

  IsFull-or_paused :
      (paused : Bool) (p : PipelineProgress)
      → (paused || (has_stage_work p && leb r.max_cache_bytes p.reserved_cache)) ≡ true
      → (paused ≡ true) ⊎ IsFull p
  IsFull-or_paused paused p h = ground arith

  neither :
      (paused : Bool) (p : PipelineProgress)
      → (paused || (has_stage_work p && leb r.max_cache_bytes p.reserved_cache)) ≡ false
      → (paused ≡ false) × (¬ IsFull p)
  neither paused p h = (ground arith, λ full. ground arith)

  check_after-Ends :
      (s : PipelineSummary) (before p : PipelineProgress) (paused : Bool) (w : W)
      → ((status : TaskStatus) (e : RunError E)
          → LastPass before p paused status
              (r.update_task_status Context.background status (some e) w).0
              (with_final p s)
              e)
      → HonestExit (check_after r s before p paused w)
  unfolding check_after give_up leave return
  check_after-Ends s before p paused w last = elim (Bool-cases (ltb 0 p.failed_permanent)) [
    | inl failed ↦ rw failed (refl, ltb→lt 0 p.failed_permanent failed)
    | inr fine ↦ rw fine (elim (Bool-cases (complete p)) [
      | inl done_ ↦ rw done_ ((finish-Ends s p done_).holds w)
      | inr open_ ↦ rw open_ (elim (Bool-cases (same_progress p before)) [
        | inr moved ↦ rw moved tt
        | inl still ↦
            let same = sym (same_progress-eq p before still) in
            rw still
              (elim (Bool-cases
                (paused || (has_stage_work p && leb r.max_cache_bytes p.reserved_cache))) [
                  | inl full ↦ rw full (
                    open_,
                    none_failed p.failed_permanent fine,
                    (
                      paused,
                      IsFull-or_paused paused p full,
                      LastPass-same same refl (last TaskStatus.paused RunError.cache_watermark),
                    ),
                  )
                  | inr free ↦ rw free (
                      let (unpaused, room) = neither paused p free in
                      (
                        refl,
                        open_,
                        none_failed p.failed_permanent fine,
                        room,
                        LastPass-same same unpaused
                            (last TaskStatus.blocked (RunError.no_progress p)),
                      ))
                ])
      ])
    ])
  ]

  ruleset honest = (
    bind-Ends, return-Ends, read_progress-Ends, pass-Ends, check_cancelled-Ends, check_before-Ends,
    finish_if_complete-Ends,
  )

  run_cleanup-Ends : (s : PipelineSummary) → Ends (run_cleanup r s)
  unfolding run_cleanup
  run_cleanup-Ends s = search honest depth 9

  run_drive-Ends : (s : PipelineSummary) → Ends (run_drive r s)
  unfolding run_drive
  run_drive-Ends s = search honest depth 9

  run_download-Ends : (s : PipelineSummary) → Ends (run_download r s)
  unfolding run_download
  run_download-Ends s = search honest depth 9

  run_stage-Ends : (s : PipelineSummary) (available : ℕ) → Ends (run_stage r s available)
  unfolding run_stage
  run_stage-Ends s available = search honest depth 9

  cleanup_step-Ends : (s : PipelineSummary) (p : PipelineProgress) → Ends (cleanup_step r s p)
  unfolding cleanup_step
  cleanup_step-Ends s p =
      if-Ends (has_cleanup_work p) _ (return (s, p)) (λ _. run_cleanup-Ends s)
        (λ _. return-Ends (s, p))

  drive_step-Ends : (s : PipelineSummary) (p : PipelineProgress) → Ends (drive_step r s p)
  unfolding drive_step
  drive_step-Ends s p =
      if-Ends (has_drive_work p || (p.total == 0 && not p.drive_root_ready)) _ (return (s, p))
        (λ _. run_drive-Ends s) (λ _. return-Ends (s, p))

  download_step-Ends : (s : PipelineSummary) (p : PipelineProgress) → Ends (download_step r s p)
  unfolding download_step
  download_step-Ends s p =
      if-Ends (has_download_work p) _ (return (s, p, false)) (λ _. run_download-Ends s)
        (λ _. return-Ends (s, p, false))

  stage_step-Ends :
      (s : PipelineSummary) (p : PipelineProgress) (paused : Bool) → Ends (stage_step r s p paused)
  unfolding stage_step
  stage_step-Ends s p paused =
      if-Ends (not paused && ltb p.reserved_cache r.max_cache_bytes && has_stage_work p) _
        (return p) (λ _. run_stage-Ends s (r.max_cache_bytes - p.reserved_cache))
        (λ _. return-Ends p)

  bind-HonestExit :
      {A B : Type 0} (m : Run W E A) (f : A → Run W E B) (w : W)
      → HonestExit (m w)
      → ((w1 : W) (a : A) → m w ≡ (w1, ok a) → HonestExit (f a w1))
      → HonestExit ((m >>= f) w)
  unfolding ◌>>=◌ continue
  bind-HonestExit {A} {B} m f w first later = go (m w) first refl
    where
      go : (x : W × Result (Exit E) A) → HonestExit x → m w ≡ x → HonestExit (continue f x)
      go (w1, ok a) h e = later w1 a e
      go (w1, err x) h e = h

  run_pass-Ends : (pass : ℕ) (s : PipelineSummary) → Ends (run_pass r pass s)
  unfolding run_pass
  run_pass-Ends pass s = record {
    holds = λ w. bind-HonestExit _ _ w ((check_cancelled-Ends s).holds w) λ w0 _ _.
        bind-HonestExit _ _ w0 ((read_progress-Ends s).holds w0) λ w1 before reads.
          bind-HonestExit _ _ w1 ((check_before-Ends s before).holds w1) λ w2 _ goes_on.
            bind-HonestExit _ _ w2 ((cleanup_step-Ends _ before).holds w2) λ w3 (s1, c1) cleans.
              bind-HonestExit _ _ w3 ((drive_step-Ends s1 c1).holds w3) λ w4 (s2, c2) uploads.
                bind-HonestExit _ _ w4 ((download_step-Ends s2 c2).holds w4)
                  λ w5 (s3, c3, paused) downloads.
                    bind-HonestExit _ _ w5 ((stage_step-Ends s3 c3 paused).holds w5)
                      λ w6 current stages.
                        bind-HonestExit _ _ w6
                          (check_after-Ends s3 before current paused w6 λ status e. record {
                            pass = pass;
                            at_start = s;
                            s1 = s1;
                            s2 = s2;
                            s3 = s3;
                            c1 = c1;
                            c2 = c2;
                            c3 = c3;
                            w0 = w0;
                            w1 = w1;
                            w2 = w2;
                            w3 = w3;
                            w4 = w4;
                            w5 = w5;
                            w6 = w6;
                            reads = reads;
                            goes_on = goes_on;
                            cleans = cleans;
                            uploads = uploads;
                            downloads = downloads;
                            stages = stages;
                            records = refl;
                            sums_up = refl;
                          })
                          λ w7 _ _. (return-Ends s3).holds w7;
  }

  at_pass_limit-Ends :
      (s : PipelineSummary)
      → s.passes ≡ pass_limit_of r
      → Ends (at_pass_limit r (pass_limit_of r) s)
  unfolding at_pass_limit
  at_pass_limit-Ends s used =
      bind-Ends _ _ (read_progress-Ends s) (λ p. give_up-Ends _ _ _ (λ _. (refl, used)))

  -- The passes made and those that are left make up the limit.
  run_loop-Ends :
      (left pass : ℕ) (s : PipelineSummary) (w : W)
      → pass ≡ s.passes + 1
      → s.passes + left ≡ pass_limit_of r
      → HonestExit (run_loop r left (pass_limit_of r) pass s w)
  unfolding run_loop
  run_loop-Ends zero pass s w next_pass all = (at_pass_limit-Ends s (omega (arith, all))).holds w
  run_loop-Ends (suc left) pass s w next_pass all =
      bind-HonestExit _ _ w ((run_pass-Ends pass s).holds w) λ w1 s1 ran.
        let counted : s1.passes ≡ pass =
          Gives-ok (λ (x : PipelineSummary). x.passes ≡ pass) (run_pass-Counts r pass s w) ran in
        run_loop-Ends left (pass + 1) s1 w1 (ap (λ n. n + 1) (sym counted))
          (omega (arith, counted, next_pass, all))

  -- Run leaves the loop in one of its tests: the loop goes on to no value.
  abbrev Leaves : {A : Type 0} → Run W E A → Type 0
  Leaves {A} m = (w w1 : W) (a : A) → m w ≡ (w1, ok a) → ⊥

  bind-Leaves :
      {A B : Type 0} (m : Run W E A) (f : A → Run W E B)
      → ((a : A) → Leaves (f a))
      → Leaves (m >>= f)
  unfolding ◌>>=◌ continue
  bind-Leaves {A} {B} m f later w w1 b h = go (m w) h
    where
      go : (x : W × Result (Exit E) A) → continue f x ≡ (w1, ok b) → ⊥
      go (w2, ok a) e = later a w2 w1 b e
      go (w2, err x) e = err≢ok (ap (λ y. y.1) e)

  run_loop-Leaves :
      (left max_passes pass : ℕ) (s : PipelineSummary) → Leaves (run_loop r left max_passes pass s)
  unfolding run_loop at_pass_limit give_up leave
  run_loop-Leaves zero max_passes pass s = bind-Leaves _ _ (λ p w w1 a h. err≢ok (ap (λ y. y.1) h))
  run_loop-Leaves (suc left) max_passes pass s =
      bind-Leaves _ _ (λ s1. run_loop-Leaves left max_passes (pass + 1) s1)

  exit_of-IsHonest :
      (x : W × Result (Exit E) (Unit {0}))
      → HonestExit x
      → ((w : W) (a : Unit {0}) → x ≡ (w, ok a) → ⊥)
      → let (w, (s, e)) = exit_of r x in IsHonest w s e
  unfolding exit_of
  exit_of-IsHonest (w, err x) h never = h
  exit_of-IsHonest (w, ok a) h never = absurd (never w a refl)

  -- What Run returns is true of its summary and of the pass in which it ended. Without an error the
  -- progress is complete, and the last thing done was to record the task as completed, with success.
  -- Its own errors: the scan is incomplete; as many files as it says have failed for good, and at
  -- least one; the passes made are as many as the limit; or the last pass ended with the very
  -- progress that it had read at its start, which is not complete and has no file that failed for
  -- good. Of these last, the error of the watermark is only returned, and recorded as a pause, where
  -- the download of this pass was paused by the watermark, or there is work for the staging and the
  -- reserved cache reaches the limit; and the error of no progress, recorded as blocked, only where
  -- neither holds.
  pub run-IsHonest : (w : W) → let (w1, (s, e)) = run r w in IsHonest w1 s e
  unfolding run
  run-IsHonest w = elim (Bool-cases (r.max_cache_bytes == 0)) [
    | inl unset ↦ rw unset (==→eq r.max_cache_bytes 0 unset)
    | inr set ↦ rw set (
        exit_of-IsHonest _
          (run_loop-Ends (pass_limit_of r) 1 zero_summary w (omega arith) (omega arith))
          (run_loop-Leaves (pass_limit_of r) (pass_limit_of r) 1 zero_summary w))
  ]
