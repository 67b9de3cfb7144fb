-- ===== src/Drive/Ends.antt =====
-- The loop of Uploader.Run (internal/drive/upload.go) ends.
use baidu_drive_mover.Base.{
  ◌≡◌, refl, ℕ, zero, suc, ◌<◌, Bool, Option, none, some, Result, ok, err, arith,
}
use baidu_drive_mover.Base.Effects.{
  After, After-ok, After-state, Triple, bind, weaken, return-Triple, require-Triple,
}
use baidu_drive_mover.Text.{Str}
use baidu_drive_mover.World.{At, World, Failure, Context, query-Triple}
use baidu_drive_mover.World.Ran.{idle_db}
use baidu_drive_mover.State.Model.{File}
use baidu_drive_mover.State.Drive.Left.{left_of}
use baidu_drive_mover.Drive.Logical.{find_task}
use baidu_drive_mover.Drive.Checks.{Uploader, Problem, UploadSummary}
use baidu_drive_mover.Drive.Run
use baidu_drive_mover.Drive.Fewer.{DbOnly, Left, Shrinks, next_upload-Shrinks}

module _ {W E : Type 0} (u : Uploader W E) where
  -- A run of the model with this many turns has ended.
  abbrev Ended : World W × Run.UploadExit u → Type 0
  Ended r = (exit : UploadSummary × Option (Failure E (Problem E))) × (r.1 ≡ some exit)

  upload_turn-Ended :
      (task : Str) (n : ℕ) (sum : UploadSummary)
      (again : UploadSummary → World W → World W × Run.UploadExit u)
      (r : World W × Result (Failure E (Problem E)) (Option (File × Bool)))
      → ((s1 : UploadSummary) (w1 : World W) → suc (left_of task w1.db) ≡ n → Ended (again s1 w1))
      → After (Shrinks u task n) (λ _ _. Unit {0}) r
      → Ended (Run.upload_turn u sum again r)
  unfolding Run.upload_turn
  upload_turn-Ended task n sum again (w, ok none) each after = ((sum, none), refl)
  upload_turn-Ended task n sum again (w, ok (some (f, b))) each after =
      each _ w (After-ok after refl)
  upload_turn-Ended task n sum again (w, err x) each after = ((sum, some x), refl)

  upload_files-Ended :
      (fuel : ℕ) (task root : Str) (sum : UploadSummary) (w : World W)
      → left_of task w.db < fuel
      → Ended (Run.upload_files u fuel task root sum w)
  unfolding Run.upload_files
  upload_files-Ended zero task root sum w enough = absurd (omega arith)
  upload_files-Ended (suc fuel) task root sum w enough =
      upload_turn-Ended task (left_of task w.db) sum _ (Run.next_upload u task root w)
        (λ s1 w1 fewer_. upload_files-Ended fuel task root s1 w1 (omega (arith, fewer_)))
        (next_upload-Shrinks u task (left_of task w.db) root w refl)

  run_with_root-Ended :
      (fuel : ℕ) (task : Str) (r : World W × Result (Failure E (Problem E)) Str)
      → left_of task r.0.db < fuel
      → Ended (Run.run_with_root u fuel task r)
  unfolding Run.run_with_root
  run_with_root-Ended fuel task (w, ok root) enough = upload_files-Ended fuel task root _ w enough
  run_with_root-Ended fuel task (w, err x) enough = ((_, some x), refl)

  task_root_id-Left :
      (task : Str) (n : ℕ)
      → Triple
          (At (DbOnly u (Left u task n)))
          (Run.task_root_id u task)
          (λ _. At (DbOnly u (Left u task n)))
          (λ _. At (DbOnly u (Left u task n)))
  unfolding Run.task_root_id
  task_root_id-Left task n =
      bind
        (weaken
          (query-Triple (DbOnly u (Left u task n)) u.outside (idle_db u.outside (Left u task n))
            (λ _ _. Unit {0}) Context.caller (find_task task) (λ _ _ _ _ _. tt))
          (λ s p. p) (λ t s p. p.0) (λ e s p. p))
        λ t. bind (require-Triple _ _ (λ s p _. p) (λ s p _. p)) λ _. return-Triple _ (λ s p. p)

  -- A run of the uploader ends, with a summary and an error or none, whatever the outside does: the
  -- turns that it is given, one more than there are files of the task to be uploaded or verified, are
  -- enough.
  pub run_uploader-ends :
      (task : Str) (s : World W)
      → (exit : UploadSummary × Option (Failure E (Problem E))) × ((Run.run_uploader u task s).1
          ≡ some exit)
  unfolding Run.run_uploader
  run_uploader-ends task s =
      run_with_root-Ended (suc (left_of task s.db)) task (Run.task_root_id u task s) (
        let kept =
          After-state (At (DbOnly u (Left u task (left_of task s.db))))
            (task_root_id-Left task (left_of task s.db) s refl) (λ _ _ q. q) (λ _ _ q. q) in
        omega (arith, kept))
