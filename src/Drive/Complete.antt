-- ===== src/Drive/Complete.antt =====
-- A run of Uploader.Run (internal/drive/upload.go) that returns no error has nothing left to do.
use baidu_drive_mover.Base.{
  List, [], ◌∷◌, ◌&&◌, ok-eq, ◌≡◌, refl, ℕ, zero, suc, Bool, Option, none, some, Result, ok, err,
  take-none, order_by-none, select-none,
}
use baidu_drive_mover.Base.Effects.{After-any, After-ok, After, Triple, bind, weaken, return-Triple}
use baidu_drive_mover.State.Db.{Db}
use baidu_drive_mover.State.Drive.{drive_upload_candidates, is_drive_work}
use baidu_drive_mover.State.Download.{logical_le}
use baidu_drive_mover.Text.{str_eq, Str}
use baidu_drive_mover.State.Model.{File}
use baidu_drive_mover.Drive.Fewer.{DbOnly}
use baidu_drive_mover.World.{World, Failure, Context, query-Triple}
use baidu_drive_mover.World.Ran.{idle_db}
use baidu_drive_mover.State.Drive.Left.{left_of}
use baidu_drive_mover.Drive.Checks.{Uploader, Problem, UploadSummary}
use baidu_drive_mover.Drive.Run

candidates-none :
    (task : Str) (db : Db) → drive_upload_candidates task 64 db ≡ [] → left_of task db ≡ 0
unfolding drive_upload_candidates
candidates-none task db h =
    select-none (λ f. str_eq task f.task_id && is_drive_work f.status) db.files
      (order_by-none logical_le _ (take-none 63 _ h))

module _ {W E : Type 0} (u : Uploader W E) (task : Str) where
  abbrev Nothing : Db → Type 0
  Nothing db = Unit {0}

  -- Nothing is left where there is no candidate.
  abbrev Exhausted : Option (File × Bool) → World W → Type 0
  Exhausted r s = r ≡ none → left_of task s.db ≡ 0

  upload_first-Exhausted :
      (root : Str) (fs : List File)
      → Triple
          (λ s. drive_upload_candidates task 64 s.db ≡ fs)
          (Run.upload_first u root fs)
          Exhausted
          (λ _ _. Unit {0})
  unfolding Run.upload_first
  upload_first-Exhausted root [] = return-Triple none (λ s h _. candidates-none task s.db h)
  upload_first-Exhausted root (f ∷ fs) =
      bind {Q = λ _ _. Unit {0}} (λ s p. After-any _) λ b. return-Triple (some (f, b)) (λ s p h. cc)

  next_upload-Exhausted :
      (root : Str)
      → Triple (λ _. Unit {0}) (Run.next_upload u task root) Exhausted (λ _ _. Unit {0})
  unfolding Run.next_upload
  next_upload-Exhausted root =
      bind {Q = λ _ _. Unit {0}} (λ s p. After-any _)
        λ _.
          bind
            (weaken
              (query-Triple (DbOnly u Nothing) u.outside (idle_db u.outside Nothing)
                (λ fs db. drive_upload_candidates task 64 db ≡ fs) Context.caller
                (λ db. ok (drive_upload_candidates task 64 db)) (λ db w fs p h. ok-eq h))
              (λ s p. p) (λ fs s p. p.1) (λ e s p. p))
            λ fs. upload_first-Exhausted root fs

  abbrev Complete : World W × Run.UploadExit u → Type 0
  Complete r = (sum : UploadSummary) → r.1 ≡ some (sum, none) → left_of task r.0.db ≡ 0

  upload_turn-Complete :
      (sum : UploadSummary) (again : UploadSummary → World W → World W × Run.UploadExit u)
      (r : World W × Result (Failure E (Problem E)) (Option (File × Bool)))
      → ((s1 : UploadSummary) (w1 : World W) → Complete (again s1 w1))
      → After Exhausted (λ _ _. Unit {0}) r
      → Complete (Run.upload_turn u sum again r)
  unfolding Run.upload_turn
  upload_turn-Complete sum again (w, ok none) each after s h = After-ok after refl refl
  upload_turn-Complete sum again (w, ok (some (f, b))) each after s h = each _ w s h
  upload_turn-Complete sum again (w, err x) each after s h = cc

  upload_files-Complete :
      (fuel : ℕ) (root : Str) (sum : UploadSummary) (w : World W)
      → Complete (Run.upload_files u fuel task root sum w)
  unfolding Run.upload_files
  upload_files-Complete zero root sum w s h = cc
  upload_files-Complete (suc fuel) root sum w s h =
      upload_turn-Complete sum _ (Run.next_upload u task root w)
        (λ s1 w1. upload_files-Complete fuel root s1 w1) (next_upload-Exhausted root w tt) s h

  run_with_root-Complete :
      (fuel : ℕ) (r : World W × Result (Failure E (Problem E)) Str)
      → Complete (Run.run_with_root u fuel task r)
  unfolding Run.run_with_root
  run_with_root-Complete fuel (w, ok root) s h = upload_files-Complete fuel root _ w s h
  run_with_root-Complete fuel (w, err x) s h = cc

  -- If a run of the uploader returns no error, then no file of the task is left that is ready, being
  -- uploaded, or uploaded and not verified.
  pub run_uploader-Complete :
      (s : World W) (sum : UploadSummary)
      → (Run.run_uploader u task s).1 ≡ some (sum, none)
      → left_of task (Run.run_uploader u task s).0.db ≡ 0
  unfolding Run.run_uploader
  run_uploader-Complete s = run_with_root-Complete _ (Run.task_root_id u task s)
