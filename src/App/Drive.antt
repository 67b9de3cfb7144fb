-- ===== src/App/Drive.antt =====
-- internal/app/drive.go: DriveRunner.Run, one pass of the folders and the uploads of a task.
pub mod Complete
mod Tests
use baidu_drive_mover.Base.{
  Bool, true, false, List, [], ◌∷◌, Option, none, some, Result, ok, err, if◌then◌else◌,
}
use baidu_drive_mover.Base.Effects.{Effect, ◌>>=◌, ◌>>◌, return, raise, ignore, handle, caught}
use baidu_drive_mover.Text.{Str, bytes}
use baidu_drive_mover.World.{
  Context, World, Failure, Act, report, outside_call, check_context, store_call, query,
}
use baidu_drive_mover.State.Model.{TaskStatus}
use baidu_drive_mover.State.Tasks.{update_task_status}
use baidu_drive_mover.App.Pipeline.{DriveSummary}
use baidu_drive_mover.Drive.Logical.{find_task}
use baidu_drive_mover.Drive.Checks.{Uploader, UploadSummary, Problem}
use baidu_drive_mover.Drive.Tree.{TreeBuilder, TreeProblem, ensure}
use baidu_drive_mover.Drive.Run.{run_uploader}

-- The errors of the builder and of the uploader. `unfinished` is no error of the code: it stands for
-- the uploader's model giving up.
pub data DriveProblem (E : Type 0) : Type 0 where
  tree : Failure E TreeProblem → DriveProblem E
  upload : Failure E (Problem E) → DriveProblem E
  unfinished : DriveProblem E

-- The fields of the runner, which gives its store and its client to the builder and to the uploader.
-- `is_auth_required` is errors.Is(err, rclone.ErrDriveAuthRequired), and `is_cancelled` errors.Is
-- for one of the two errors of a context.
pub record DriveRunner (W E : Type 0) : Type 0 where
  pub uploader : Uploader W E
  pub run_base : Str → List Str → W → W × Result E Str
  pub provision : W → W × Option E
  pub new_client : W → W × Option E
  pub ensure_drive_remote : W → W × Result E Bool
  pub probe_drive : W → W × Option E
  pub reauthorize_drive_remote : W → W × Option E
  pub is_auth_required : E → Bool
  pub is_cancelled : Failure E (DriveProblem E) → Bool
  pub safe_error : Failure E (DriveProblem E) → Str

abbrev pub empty_drive_summary : DriveSummary
empty_drive_summary = record { root_id = []; files_verified = 0; bytes_verified = 0 }

abbrev pub drive_summary : Str → UploadSummary → DriveSummary
drive_summary root s = record {
  root_id = root;
  files_verified = s.files_verified;
  bytes_verified = s.bytes_verified;
}

-- Code that returns a summary with its error.
abbrev pub DriveStep : Type 0 → Type 0 → Type 0 → Type 0
DriveStep W E A = Effect (World W) (DriveSummary × Failure E (DriveProblem E)) A

unfoldable pub attach :
    {W E A : Type 0}
    → DriveSummary
    → World W × Result (Failure E (DriveProblem E)) A
    → World W × Result (DriveSummary × Failure E (DriveProblem E)) A
attach s (w, ok a) = (w, ok a)
attach s (w, err e) = (w, err (s, e))

abbrev pub with_summary :
    {W E A : Type 0} → DriveSummary → Act W E (DriveProblem E) A → DriveStep W E A
with_summary s m w = attach s (m w)

unfoldable pub of_tree_result :
    {W E A : Type 0}
    → World W × Result (Failure E TreeProblem) A
    → World W × Result (DriveSummary × Failure E (DriveProblem E)) A
of_tree_result (w, ok a) = (w, ok a)
of_tree_result (w, err e) = (w, err (empty_drive_summary, Failure.found (DriveProblem.tree e)))

unfoldable pub of_upload_result :
    {W E : Type 0}
    → Str
    → World W × Option (UploadSummary × Option (Failure E (Problem E)))
    → World W × Result (DriveSummary × Failure E (DriveProblem E)) DriveSummary
of_upload_result root (w, none) =
    (w, err (empty_drive_summary, Failure.found DriveProblem.unfinished))
of_upload_result root (w, some (s, none)) = (w, ok (drive_summary root s))
of_upload_result root (w, some (s, some e)) =
    (w, err (drive_summary root s, Failure.found (DriveProblem.upload e)))

module _ {W E : Type 0} (r : DriveRunner W E) where
  abbrev pub builder : TreeBuilder W E
  builder = record {
    outside = r.uploader.outside;
    run_base = r.run_base;
    run_task = r.uploader.run_task;
    parse_items = r.uploader.parse_items;
  }

  unfoldable pub needs_authorization : Failure E (DriveProblem E) → Bool
  needs_authorization (Failure.outer e) = r.is_auth_required e
  needs_authorization _ = false

  unfoldable pub reauthorize :
      Option (Failure E (DriveProblem E)) → Act W E (DriveProblem E) (Unit {0})
  reauthorize none = return tt
  reauthorize (some e) =
      if needs_authorization e
      then (do report r.reauthorize_drive_remote; report r.probe_drive)
      else raise e

  -- The client, with its authorization.
  unfoldable pub prepare_client : Act W E (DriveProblem E) (Unit {0})
  prepare_client = do
    report r.provision
    report r.new_client
    _ ← outside_call r.ensure_drive_remote
    e ← caught (report r.probe_drive)
    reauthorize e

  unfoldable pub ensure_tree : Str → DriveStep W E Str
  ensure_tree task w = of_tree_result (ensure builder task w)

  unfoldable pub upload_pass : Str → Str → DriveStep W E DriveSummary
  upload_pass task root w = of_upload_result root (run_uploader r.uploader task w)

  unfoldable pub drive_pass : Str → DriveStep W E DriveSummary
  drive_pass task = do
    with_summary empty_drive_summary prepare_client
    root ← ensure_tree task
    upload_pass task root

  -- A context that has ended leaves the task paused, and any other error leaves it blocked.
  unfoldable pub status_after : Option (Failure E (DriveProblem E)) → TaskStatus
  status_after (some _) = TaskStatus.paused
  status_after none = TaskStatus.blocked

  unfoldable pub failed_status : Failure E (DriveProblem E) → Act W E (DriveProblem E) TaskStatus
  failed_status e = if r.is_cancelled e then return TaskStatus.paused else (do
    cancelled ← caught (check_context r.uploader.outside)
    return (status_after cancelled))

  -- An error of the update is thrown away.
  unfoldable pub fail_drive :
      {A : Type 0} → Str → DriveSummary × Failure E (DriveProblem E) → DriveStep W E A
  fail_drive task (s, e) = do
    status ← with_summary s (failed_status e)
    with_summary s (
        ignore (
          store_call r.uploader.outside Context.background
            (update_task_status task status (r.safe_error e))))
    raise (s, e)

  unfoldable pub finish_drive : Str → DriveSummary → DriveStep W E DriveSummary
  finish_drive task s = do
    with_summary s (
        store_call r.uploader.outside Context.caller (update_task_status task TaskStatus.paused []))
    return s

  unfoldable pub run_drive : Str → DriveStep W E DriveSummary
  run_drive task = do
    _ ← with_summary empty_drive_summary (query r.uploader.outside Context.caller (find_task task))
    with_summary empty_drive_summary (
        store_call r.uploader.outside Context.caller
          (update_task_status task TaskStatus.running []))
    handle (drive_pass task) (finish_drive task) (fail_drive task)
