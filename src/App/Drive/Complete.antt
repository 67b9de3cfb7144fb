-- ===== src/App/Drive/Complete.antt =====
-- A pass of internal/app/drive.go that succeeds has uploaded and verified all that there was.
use baidu_drive_mover.Base.{[], false, ◌≡◌, refl, ◌∙◌, subst, Option, none, some, Result, ok}
use baidu_drive_mover.Base.Effects.{
  After, After-any, After-ok, returned, raised, Triple, bind, weaken, return-Triple, raise-Triple,
  handle-Triple,
}
use baidu_drive_mover.Text.{Str}
use baidu_drive_mover.World.{World, Failure, Context}
use baidu_drive_mover.World.Ran.{store_call-Ran}
use baidu_drive_mover.State.Model.{TaskStatus}
use baidu_drive_mover.State.Db.{Db, exec_one, update_tasks}
use baidu_drive_mover.State.Tasks.{update_task_status}
use baidu_drive_mover.State.Drive.Left.{left_of}
use baidu_drive_mover.State.Progress.{PipelineProgress, has_drive_work, pipeline_progress}
use baidu_drive_mover.State.Progress.DriveWork.{has_drive_work-rest}
use baidu_drive_mover.App.Pipeline.{DriveSummary}
use baidu_drive_mover.App.Drive
use baidu_drive_mover.App.Drive.{DriveRunner, DriveProblem, DriveStep}
use baidu_drive_mover.Drive.Checks.{Problem, UploadSummary}
use baidu_drive_mover.Drive.Run
use baidu_drive_mover.Drive.Complete.{run_uploader-Complete}

update_task_status-left :
    (owner task message now : Str) (status : TaskStatus) (db : Db)
    → left_of owner (update_task_status task status message now db).0 ≡ left_of owner db
unfolding update_task_status exec_one update_tasks
update_task_status-left owner task message now status db = refl

module _ {W E : Type 0} (r : DriveRunner W E) (task : Str) where
  abbrev Any : World W → Type 0
  Any _ = Unit {0}

  -- No file of the task is left.
  abbrev Done : World W → Type 0
  Done s = left_of task s.db ≡ 0

  any : {A : Type 0} (m : DriveStep W E A) → Triple Any m (λ _. Any) (λ _ _. Unit {0})
  any m s p = After-any (m s)

  attach-After :
      {A : Type 0} {Q : A → World W → Type 0} (sum : DriveSummary)
      (x : World W × Result (Failure E (DriveProblem E)) A)
      → After Q (λ _ _. Unit {0}) x
      → After Q (λ _ _. Unit {0}) (Drive.attach sum x)
  unfolding Drive.attach
  attach-After sum _ (returned q) = returned q
  attach-After sum _ (raised e) = raised tt

  of_upload_result-Done :
      (root : Str) (x : World W × Option (UploadSummary × Option (Failure E (Problem E))))
      → ((sum : UploadSummary) → x.1 ≡ some (sum, none) → left_of task x.0.db ≡ 0)
      → After (λ _. Done) (λ _ _. Unit {0}) (Drive.of_upload_result root x)
  unfolding Drive.of_upload_result
  of_upload_result-Done root (w, none) complete = raised tt
  of_upload_result-Done root (w, some (sum, none)) complete = returned (complete sum refl)
  of_upload_result-Done root (w, some (sum, some e)) complete = raised tt

  upload_pass-Done :
      (root : Str) → Triple Any (Drive.upload_pass r task root) (λ _. Done) (λ _ _. Unit {0})
  unfolding Drive.upload_pass
  upload_pass-Done root s p =
      of_upload_result-Done root (Run.run_uploader r.uploader task s)
        (run_uploader-Complete r.uploader task s)

  drive_pass-Done : Triple Any (Drive.drive_pass r task) (λ _. Done) (λ _ _. Unit {0})
  unfolding Drive.drive_pass
  drive_pass-Done = bind (any _) λ _. bind (any _) λ root. upload_pass-Done root

  finish_drive-Done :
      (sum : DriveSummary)
      → Triple Done (Drive.finish_drive r task sum) (λ _. Done) (λ _ _. Unit {0})
  unfolding Drive.finish_drive
  finish_drive-Done sum =
      bind {Q = λ _. Done}
        (λ s p. attach-After sum _ (
          weaken
            (store_call-Ran r.uploader.outside (λ db. left_of task db ≡ 0) Context.caller
              (update_task_status task TaskStatus.paused []))
            (λ t q. q)
            (λ _ t (now, db, left, _, same).
              subst (λ d. left_of task d ≡ 0) same
                (update_task_status-left task task [] now TaskStatus.paused db ∙ left))
            (λ _ t q. tt) s p))
        λ _. return-Triple sum (λ s p. p)

  fail_drive-Done :
      (e : DriveSummary × Failure E (DriveProblem E))
      → Triple Any (Drive.fail_drive r {A = DriveSummary} task e) (λ _. Done) (λ _ _. Unit {0})
  unfolding Drive.fail_drive
  fail_drive-Done (sum, e) =
      bind (any _) λ status. bind (any _) λ _. raise-Triple (sum, e) (λ s p. tt)

  run_drive-Done : Triple Any (Drive.run_drive r task) (λ _. Done) (λ _ _. Unit {0})
  unfolding Drive.run_drive
  run_drive-Done =
      bind (any _)
        λ _. bind (any _) λ _. handle-Triple drive_pass-Done finish_drive-Done fail_drive-Done

  -- If a Drive pass succeeds, then no file of the task is left that is ready, being uploaded, or
  -- uploaded and not verified, and the progress of the task shows no more work for this pass.
  pub run_drive-Complete :
      (s : World W) (sum : DriveSummary) (p : PipelineProgress)
      → (Drive.run_drive r task s).1 ≡ ok sum
      → pipeline_progress task (Drive.run_drive r task s).0.db ≡ ok p
      → (left_of task (Drive.run_drive r task s).0.db ≡ 0) × (has_drive_work p ≡ false)
  run_drive-Complete s sum p h shown =
      let left = After-ok (run_drive-Done s tt) h in
      (left, has_drive_work-rest task (Drive.run_drive r task s).0.db p left shown)
