-- ===== src/App/Pipeline/Passes.antt =====
-- What a pass of PipelineRunner.Run (internal/app/pipeline.go) returns with counts the passes so far.
use baidu_drive_mover.Base.{
  ◌≡◌, refl, ◌∙◌, subst, ℕ, Bool, true, false, not, ◌&&◌, ◌||◌, Result, ok, err, if◌then◌else◌,
  ◌==◌,
}
use baidu_drive_mover.State.Progress.{
  PipelineProgress, has_drive_work, has_download_work, has_cleanup_work,
}
use baidu_drive_mover.App.Pipeline.{
  PipelineSummary, PipelineRunner, Exit, Run, continue, ◌>>=◌, return, run_cleanup, cleanup_step,
  run_drive, drive_step, run_download, download_step, run_pass,
}

module _ {W E : Type 0} where
  -- What holds of the value, where Run goes on.
  abbrev pub Gives : {A : Type 0} → (A → Type 0) → W × Result (Exit E) A → Type 0
  Gives P (w, ok a) = P a
  Gives P (w, err _) = Unit

  pub Gives-ok :
      {A : Type 0} (P : A → Type 0) {x : W × Result (Exit E) A} {w : W} {a : A}
      → Gives P x
      → x ≡ (w, ok a)
      → P a
  Gives-ok P h e = subst (Gives P) e h

  bind-Gives :
      {A B : Type 0} (P : B → Type 0) (m : Run W E A) (f : A → Run W E B) (w : W)
      → ((w1 : W) (a : A) → m w ≡ (w1, ok a) → Gives P (f a w1))
      → Gives P ((m >>= f) w)
  unfolding ◌>>=◌ continue
  bind-Gives {A} {B} P m f w later = go (m w) refl
    where
      go : (x : W × Result (Exit E) A) → m w ≡ x → Gives P (continue f x)
      go (w1, ok a) e = later w1 a e
      go (w1, err _) e = tt

  if-Gives :
      {A : Type 0} (P : A → Type 0) (b : Bool) (m k : Run W E A) (w : W)
      → Gives P (m w)
      → Gives P (k w)
      → Gives P ((if b then m else k) w)
  if-Gives P true m k w hm hk = hm
  if-Gives P false m k w hm hk = hk

module _ {W E : Type 0} (r : PipelineRunner W E) where
  -- A step hands on the number of passes.
  abbrev Counts : PipelineSummary → PipelineSummary × PipelineProgress → Type 0
  Counts s (s1, _) = s1.passes ≡ s.passes

  abbrev Counts3 : PipelineSummary → PipelineSummary × PipelineProgress × Bool → Type 0
  Counts3 s (s1, _, _) = s1.passes ≡ s.passes

  cleanup_step-Counts :
      (s : PipelineSummary) (p : PipelineProgress) (w : W) → Gives (Counts s) (cleanup_step r s p w)
  unfolding cleanup_step run_cleanup return
  cleanup_step-Counts s p w =
      if-Gives (Counts s) (has_cleanup_work p) _ _ w
        (bind-Gives (Counts s) _ _ w λ w1 c _.
          bind-Gives (Counts s) _ _ w1 λ w2 q _. bind-Gives (Counts s) _ _ w2 λ w3 _ _. refl)
        refl

  drive_step-Counts :
      (s : PipelineSummary) (p : PipelineProgress) (w : W) → Gives (Counts s) (drive_step r s p w)
  unfolding drive_step run_drive return
  drive_step-Counts s p w =
      if-Gives (Counts s) (has_drive_work p || (p.total == 0 && not p.drive_root_ready)) _ _ w
        (bind-Gives (Counts s) _ _ w λ w1 d _. bind-Gives (Counts s) _ _ w1 λ w2 q _. refl) refl

  download_step-Counts :
      (s : PipelineSummary) (p : PipelineProgress) (w : W)
      → Gives (Counts3 s) (download_step r s p w)
  unfolding download_step run_download return
  download_step-Counts s p w =
      if-Gives (Counts3 s) (has_download_work p) _ _ w
        (bind-Gives (Counts3 s) _ _ w λ w1 d _. bind-Gives (Counts3 s) _ _ w1 λ w2 q _. refl) refl

  pub run_pass-Counts :
      (pass : ℕ) (s : PipelineSummary) (w : W)
      → Gives (λ s1. s1.passes ≡ pass) (run_pass r pass s w)
  unfolding run_pass return
  run_pass-Counts pass s w =
      let P = λ (s1 : PipelineSummary). s1.passes ≡ pass in
      let start : PipelineSummary = record s { passes = pass } in
      bind-Gives P _ _ w λ w0 _ _. bind-Gives P _ _ w0 λ w1 before _. bind-Gives P _ _ w1 λ w2 _ _.
        bind-Gives P _ _ w2 λ w3 (s1, c1) cleans. bind-Gives P _ _ w3 λ w4 (s2, c2) uploads.
          bind-Gives P _ _ w4 λ w5 (s3, c3, paused) downloads. bind-Gives P _ _ w5 λ w6 c4 _.
            bind-Gives P _ _ w6 λ w7 _ _.
              (Gives-ok (Counts3 s2) (download_step-Counts s2 c2 w4) downloads
                ∙ Gives-ok (Counts s1) (drive_step-Counts s1 c1 w3) uploads
                ∙ Gives-ok (Counts start) (cleanup_step-Counts start before w2) cleans)
