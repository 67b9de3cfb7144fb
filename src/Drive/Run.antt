-- ===== src/Drive/Run.antt =====
-- internal/drive/upload.go: the loop of Uploader.Run over the files.
use baidu_drive_mover.Base.{
  ℕ, zero, suc, ◌+◌, Bool, not, ◌||◌, ◌&&◌, List, [], ◌∷◌, Option, none, some, Result, ok, err,
  if◌then◌else◌, is_empty, count_where,
}
use baidu_drive_mover.Base.Effects.{◌>>=◌, ◌>>◌, return, raise, require, handle}
use baidu_drive_mover.Text.{Str, str_eq, trim_space}
use baidu_drive_mover.World.{Context, World, Failure, Act, check_context, store_call, query}
use baidu_drive_mover.State.Model.{File}
use baidu_drive_mover.State.Db.{Db}
use baidu_drive_mover.State.Drive.{drive_upload_candidates, record_drive_failure, is_drive_work}
use baidu_drive_mover.Drive.Checks.{Problem, Uploader, UploadSummary, is_permanent}
use baidu_drive_mover.Drive.Upload.{upload_one}
use baidu_drive_mover.Drive.Logical.{find_task}

module _ {W E : Type 0} (u : Uploader W E) where
  -- The failure is recorded under the background context; an error of that is returned instead.
  unfoldable pub record_failed_upload :
      {A : Type 0} → File → Failure E (Problem E) → Act W E (Problem E) A
  record_failed_upload f e = do
    store_call u.outside Context.background
        (record_drive_failure f.task_id f.file_id (u.message e) (is_permanent e))
    raise e

  unfoldable pub upload_or_record : Str → File → Act W E (Problem E) Bool
  upload_or_record root f = handle (upload_one u root f) return (record_failed_upload f)

  unfoldable pub upload_first : Str → List File → Act W E (Problem E) (Option (File × Bool))
  upload_first root [] = return none
  upload_first root (f ∷ _) = do verified ← upload_or_record root f; return (some (f, verified))

  -- One turn of the loop of Run: the file that was uploaded, or nothing where there is none left.
  unfoldable pub next_upload : Str → Str → Act W E (Problem E) (Option (File × Bool))
  next_upload task root = do
    check_context u.outside
    files ← query u.outside Context.caller (λ db. ok (drive_upload_candidates task 64 db))
    upload_first root files

  abbrev pub count_upload : UploadSummary → File → Bool → UploadSummary
  count_upload s f verified =
      if verified
      then record s {
        files_verified = s.files_verified + 1;
        bytes_verified = s.bytes_verified + f.size;
      }
      else s

  -- What Run returns: the summary so far, and the error if there is one. `none` is no result of the
  -- code: it is how the model of the loop would give up.
  abbrev pub UploadExit : Type 0
  UploadExit = Option (UploadSummary × Option (Failure E (Problem E)))

  unfoldable pub upload_turn :
      UploadSummary
      → (UploadSummary → World W → World W × UploadExit)
      → World W × Result (Failure E (Problem E)) (Option (File × Bool))
      → World W × UploadExit
  upload_turn s again (w, ok none) = (w, some (s, none))
  upload_turn s again (w, ok (some (f, verified))) = again (count_upload s f verified) w
  upload_turn s again (w, err x) = (w, some (s, some x))

  unfoldable pub upload_files : ℕ → Str → Str → UploadSummary → World W → World W × UploadExit
  upload_files zero task root s w = (w, none)
  upload_files (suc fuel) task root s w =
      upload_turn s (λ s1 w1. upload_files fuel task root s1 w1) (next_upload task root w)

  -- The ID of the task's folder.
  unfoldable pub task_root_id : Str → Act W E (Problem E) Str
  task_root_id task = do
    t ← query u.outside Context.caller (find_task task)
    require (not (is_empty (trim_space t.drive_root_id) || is_empty (trim_space t.drive_root_name)))
        (Failure.found Problem.no_task_root)
    return (trim_space t.drive_root_id)

  abbrev pub empty_upload_summary : UploadSummary
  empty_upload_summary = record { files_verified = 0; bytes_verified = 0 }

  unfoldable pub run_with_root :
      ℕ → Str → World W × Result (Failure E (Problem E)) Str → World W × UploadExit
  run_with_root fuel task (w, ok root) = upload_files fuel task root empty_upload_summary w
  run_with_root fuel task (w, err x) = (w, some (empty_upload_summary, some x))

  -- The files of the task that are to be uploaded or verified.
  abbrev pub uploads_left : Str → Db → ℕ
  uploads_left task db = count_where (λ f. str_eq task f.task_id && is_drive_work f.status) db.files

  unfoldable pub run_uploader : Str → World W → World W × UploadExit
  run_uploader task w = run_with_root (suc (uploads_left task w.db)) task (task_root_id task w)
