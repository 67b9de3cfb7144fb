-- ===== src/State/Progress/DriveWork.antt =====
-- internal/state/pipeline_store.go: HasDriveWork, and the rows that an upload is for.
use baidu_drive_mover.Base.{
  ◌≡◌, refl, subst, Bool, true, false, ◌&&◌, List, [], ◌∷◌, ok, inl, inr, Bool-cases, Option-cases,
  count_where, arith,
}
use baidu_drive_mover.Text.{Str, str_eq}
use baidu_drive_mover.State.Model.{Task, File, FileStatus, same_status}
use baidu_drive_mover.State.Db.{Db}
use baidu_drive_mover.State.Tasks.{get_task}
use baidu_drive_mover.State.Drive.{is_drive_work}
use baidu_drive_mover.State.Drive.Left.{left_of}
use baidu_drive_mover.State.Progress.{
  PipelineProgress, has_drive_work, count_files_by_status, progress_of, pipeline_progress,
}

count_where-zero :
    {A : Type 0} (p q : A → Bool) (xs : List A)
    → ((x : A) → p x ≡ true → q x ≡ true)
    → count_where q xs ≡ 0
    → count_where p xs ≡ 0
unfolding count_where
count_where-zero p q [] fits h = refl
count_where-zero p q (x ∷ xs) fits h = elim (Bool-cases (q x)) [
  | inl hit ↦ absurd (omega (arith, rw hit at h))
  | inr miss ↦ elim (Bool-cases (p x)) [
    | inl taken ↦ cc (fits x taken)
    | inr passed ↦ rw passed (count_where-zero p q xs fits (rw miss at h))
  ]
]

ready_fits :
    (mine : Bool) (s : FileStatus)
    → mine && same_status s FileStatus.local_ready ≡ true
    → mine && is_drive_work s ≡ true
unfolding same_status
ready_fits mine s h = ground arith

uploading_fits :
    (mine : Bool) (s : FileStatus)
    → mine && same_status s FileStatus.drive_uploading ≡ true
    → mine && is_drive_work s ≡ true
unfolding same_status
uploading_fits mine s h = ground arith

uploaded_fits :
    (mine : Bool) (s : FileStatus)
    → mine && same_status s FileStatus.drive_uploaded ≡ true
    → mine && is_drive_work s ≡ true
unfolding same_status
uploaded_fits mine s h = ground arith

progress_of-rest :
    (task : Str) (t : Task) (db : Db)
    → left_of task db ≡ 0
    → has_drive_work (progress_of task t db) ≡ false
unfolding progress_of count_files_by_status has_drive_work
progress_of-rest task t db h =
    let q = λ (f : File). str_eq task f.task_id && is_drive_work f.status in
    let ready =
      count_where-zero (λ f. str_eq task f.task_id && same_status f.status FileStatus.local_ready) q
        db.files (λ f. ready_fits (str_eq task f.task_id) f.status) h in
    let uploading =
      count_where-zero
        (λ f. str_eq task f.task_id && same_status f.status FileStatus.drive_uploading) q db.files
        (λ f. uploading_fits (str_eq task f.task_id) f.status) h in
    let uploaded =
      count_where-zero
        (λ f. str_eq task f.task_id && same_status f.status FileStatus.drive_uploaded) q db.files
        (λ f. uploaded_fits (str_eq task f.task_id) f.status) h in
    rw (ready, uploading, uploaded) refl

-- Where no file is left, the progress shows no work for the Drive pass.
pub has_drive_work-rest :
    (task : Str) (db : Db) (p : PipelineProgress)
    → left_of task db ≡ 0
    → pipeline_progress task db ≡ ok p
    → has_drive_work p ≡ false
unfolding pipeline_progress
has_drive_work-rest task db p left h = elim (Option-cases (get_task task db)) [
  | inl missing ↦ cc (rw (missing, pipeline_progress) at h)
  | inr (t, found) ↦
      let e : progress_of task t db ≡ p = cc (rw (found, pipeline_progress) at h) in
      subst (λ p. has_drive_work p ≡ false) e (progress_of-rest task t db left)
]
