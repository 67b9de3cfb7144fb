-- ===== src/State/Progress/Counts.antt =====
-- The counts of PipelineProgress (internal/state/pipeline_store.go) add up, and what Complete and
-- the Has…Work methods conclude from them.
use baidu_drive_mover.Base.{
  ◌↔◌, ℕ, ◌+◌, ◌≡◌, refl, subst, Bool, true, false, ◌&&◌, List, [], ◌∷◌, ok, Option-cases, inl, inr,
  arith, if◌then◌else◌, count_where,
}
use baidu_drive_mover.Text.{Str, str_eq}
use baidu_drive_mover.State.Model.{Task, File, FileStatus, same_status}
use baidu_drive_mover.State.Db.{Db}
use baidu_drive_mover.State.Tasks.{get_task}
use baidu_drive_mover.State.Progress.{
  PipelineProgress, complete, has_drive_work, has_download_work, has_stage_work, has_cleanup_work,
  count_files_by_status, progress_of, pipeline_progress,
}

abbrev one : Bool → ℕ
one b = if b then 1 else 0

count-cons :
    (p : File → Bool) (f : File) (fs : List File)
    → count_where p (f ∷ fs) ≡ one (p f) + count_where p fs
unfolding count_where
count-cons p f fs = ground arith

count-nil : (p : File → Bool) → count_where p [] ≡ 0
unfolding count_where
count-nil p = refl

-- A file is counted under exactly one status.
one_status :
    (mine : Bool) (s : FileStatus)
    → one mine
      ≡ one (mine && same_status s FileStatus.discovered)
        + one (mine && same_status s FileStatus.planned)
        + one (mine && same_status s FileStatus.baidu_staging)
        + one (mine && same_status s FileStatus.baidu_staged)
        + one (mine && same_status s FileStatus.downloading)
        + one (mine && same_status s FileStatus.local_ready)
        + one (mine && same_status s FileStatus.drive_uploading)
        + one (mine && same_status s FileStatus.drive_uploaded)
        + one (mine && same_status s FileStatus.drive_verified)
        + one (mine && same_status s FileStatus.cleanup_pending)
        + one (mine && same_status s FileStatus.done)
        + one (mine && same_status s FileStatus.failed_retryable)
        + one (mine && same_status s FileStatus.failed_permanent)
unfolding same_status
one_status true FileStatus.discovered = refl
one_status true FileStatus.planned = refl
one_status true FileStatus.baidu_staging = refl
one_status true FileStatus.baidu_staged = refl
one_status true FileStatus.downloading = refl
one_status true FileStatus.local_ready = refl
one_status true FileStatus.drive_uploading = refl
one_status true FileStatus.drive_uploaded = refl
one_status true FileStatus.drive_verified = refl
one_status true FileStatus.cleanup_pending = refl
one_status true FileStatus.done = refl
one_status true FileStatus.failed_retryable = refl
one_status true FileStatus.failed_permanent = refl
one_status false s = refl

abbrev count_in : Str → FileStatus → List File → ℕ
count_in task s fs = count_where (λ f. str_eq task f.task_id && same_status f.status s) fs

counts-sum :
    (task : Str) (fs : List File)
    → count_where (λ f. str_eq task f.task_id) fs
      ≡ count_in task FileStatus.discovered fs
        + count_in task FileStatus.planned fs
        + count_in task FileStatus.baidu_staging fs
        + count_in task FileStatus.baidu_staged fs
        + count_in task FileStatus.downloading fs
        + count_in task FileStatus.local_ready fs
        + count_in task FileStatus.drive_uploading fs
        + count_in task FileStatus.drive_uploaded fs
        + count_in task FileStatus.drive_verified fs
        + count_in task FileStatus.cleanup_pending fs
        + count_in task FileStatus.done fs
        + count_in task FileStatus.failed_retryable fs
        + count_in task FileStatus.failed_permanent fs
counts-sum task [] = omega (
  arith,
  count-nil (λ f. str_eq task f.task_id),
  count-nil (λ f. str_eq task f.task_id && same_status f.status FileStatus.discovered),
  count-nil (λ f. str_eq task f.task_id && same_status f.status FileStatus.planned),
  count-nil (λ f. str_eq task f.task_id && same_status f.status FileStatus.baidu_staging),
  count-nil (λ f. str_eq task f.task_id && same_status f.status FileStatus.baidu_staged),
  count-nil (λ f. str_eq task f.task_id && same_status f.status FileStatus.downloading),
  count-nil (λ f. str_eq task f.task_id && same_status f.status FileStatus.local_ready),
  count-nil (λ f. str_eq task f.task_id && same_status f.status FileStatus.drive_uploading),
  count-nil (λ f. str_eq task f.task_id && same_status f.status FileStatus.drive_uploaded),
  count-nil (λ f. str_eq task f.task_id && same_status f.status FileStatus.drive_verified),
  count-nil (λ f. str_eq task f.task_id && same_status f.status FileStatus.cleanup_pending),
  count-nil (λ f. str_eq task f.task_id && same_status f.status FileStatus.done),
  count-nil (λ f. str_eq task f.task_id && same_status f.status FileStatus.failed_retryable),
  count-nil (λ f. str_eq task f.task_id && same_status f.status FileStatus.failed_permanent),
)
counts-sum task (f ∷ fs) = omega (
  arith,
  counts-sum task fs,
  one_status (str_eq task f.task_id) f.status,
  count-cons (λ f. str_eq task f.task_id) f fs,
  count-cons (λ f. str_eq task f.task_id && same_status f.status FileStatus.discovered) f fs,
  count-cons (λ f. str_eq task f.task_id && same_status f.status FileStatus.planned) f fs,
  count-cons (λ f. str_eq task f.task_id && same_status f.status FileStatus.baidu_staging) f fs,
  count-cons (λ f. str_eq task f.task_id && same_status f.status FileStatus.baidu_staged) f fs,
  count-cons (λ f. str_eq task f.task_id && same_status f.status FileStatus.downloading) f fs,
  count-cons (λ f. str_eq task f.task_id && same_status f.status FileStatus.local_ready) f fs,
  count-cons (λ f. str_eq task f.task_id && same_status f.status FileStatus.drive_uploading) f fs,
  count-cons (λ f. str_eq task f.task_id && same_status f.status FileStatus.drive_uploaded) f fs,
  count-cons (λ f. str_eq task f.task_id && same_status f.status FileStatus.drive_verified) f fs,
  count-cons (λ f. str_eq task f.task_id && same_status f.status FileStatus.cleanup_pending) f fs,
  count-cons (λ f. str_eq task f.task_id && same_status f.status FileStatus.done) f fs,
  count-cons (λ f. str_eq task f.task_id && same_status f.status FileStatus.failed_retryable) f fs,
  count-cons (λ f. str_eq task f.task_id && same_status f.status FileStatus.failed_permanent) f fs,
)

abbrev pub sum_of_counts : PipelineProgress → ℕ
sum_of_counts p =
    p.discovered + p.planned + p.baidu_staging + p.baidu_staged + p.downloading + p.local_ready
    + p.drive_uploading + p.drive_uploaded + p.drive_verified + p.cleanup_pending + p.done
    + p.failed_retryable + p.failed_permanent

progress_of-sum :
    (task : Str) (t : Task) (db : Db)
    → (progress_of task t db).total ≡ sum_of_counts (progress_of task t db)
unfolding progress_of count_files_by_status
progress_of-sum task t db = counts-sum task db.files

pipeline_progress-found :
    (task : Str) (db : Db) (p : PipelineProgress)
    → pipeline_progress task db ≡ ok p
    → p.total ≡ sum_of_counts p
unfolding pipeline_progress
pipeline_progress-found task db p h = elim (Option-cases (get_task task db)) [
  | inl missing ↦ cc (rw (missing, pipeline_progress) at h)
  | inr (t, found) ↦
      let e : progress_of task t db ≡ p = cc (rw (found, pipeline_progress) at h) in
      subst (λ (p : PipelineProgress). p.total ≡ sum_of_counts p) e (progress_of-sum task t db)
]

-- No pass has anything to do, and no file has failed.
pub record IsIdle (p : PipelineProgress) : Type 0 where
  pub no_drive_work : has_drive_work p ≡ false
  pub no_download_work : has_download_work p ≡ false
  pub no_stage_work : has_stage_work p ≡ false
  pub no_cleanup_work : has_cleanup_work p ≡ false
  pub none_retryable : p.failed_retryable ≡ 0
  pub none_permanent : p.failed_permanent ≡ 0

complete-IsIdle : (p : PipelineProgress) → p.total ≡ sum_of_counts p → complete p ≡ true → IsIdle p
unfolding complete has_drive_work has_download_work has_stage_work has_cleanup_work
complete-IsIdle p sum h = ground arith

complete-ready : (p : PipelineProgress) → complete p ≡ true → p.drive_root_ready ≡ true
unfolding complete
complete-ready p h = ground arith

IsIdle-complete :
    (p : PipelineProgress)
    → p.total ≡ sum_of_counts p
    → IsIdle p
    → p.drive_root_ready ≡ true
    → complete p ≡ true
unfolding complete has_drive_work has_download_work has_stage_work has_cleanup_work
IsIdle-complete p sum idle ready = ground arith

-- Of the progress that the store reports for a task, the counts add up to the total; and it is
-- complete exactly when no pass has work left, no file has failed, and the Drive root is ready.
pub pipeline_progress_lem :
    (task : Str) (db : Db) (p : PipelineProgress)
    → pipeline_progress task db ≡ ok p
    → (p.total ≡ sum_of_counts p) × ((complete p ≡ true) ↔ (IsIdle p × (p.drive_root_ready ≡ true)))
pipeline_progress_lem task db p h =
    let sum = pipeline_progress-found task db p h in
    (
      sum,
      (
        (λ c. (complete-IsIdle p sum c, complete-ready p c)),
        (λ (idle, ready). IsIdle-complete p sum idle ready),
      ),
    )
