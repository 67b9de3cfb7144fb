-- ===== src/State/Drive.antt =====
-- internal/state/drive_store.go: the Drive folders of a task and the upload of its files.
pub mod Verified
pub mod Left
use baidu_drive_mover.Base.{
  ℕ, ◌+◌, Bool, true, false, ◌&&◌, ◌||◌, not, List, [], ◌∷◌, if◌then◌else◌, ◌==◌, ltb, ok, order_by,
  select, take, is_empty, first_where, reverse, count_where, err,
}
use baidu_drive_mover.Text.{Str, str_eq, str_le, trim_space}
use baidu_drive_mover.State.Model.{
  Directory, File, FileStatus, StateError, validate_file_transition,
}
use baidu_drive_mover.State.Db.{
  Db, Store, in_tx, exec_one, ◌>>=◌, ◌>>◌, return, guard, get, expect, lift, is_task, is_file,
  is_directory, find_file, update_files, update_tasks, update_directories, upsert_object,
  scope_drive_task_root, scope_drive_directory, scope_drive_file, truncate_state_error, Tx,
}
use baidu_drive_mover.State.Download.{or_default, logical_le}

-- An ID or name that is stored already and differs may not be replaced.
abbrev pub is_free : Str → Str → Bool
is_free existing proposed = is_empty existing || str_eq existing proposed

unfoldable pub set_task_drive_root : Str → Str → Str → Str → Store (Unit {0})
set_task_drive_root task root_name root_id now =
    let name = trim_space root_name in
    let id = trim_space root_id in
    in_tx do
      guard (not (is_empty task) && (not (is_empty name) && not (is_empty id)))
          StateError.invalid_argument
      db ← get
      t ← expect (first_where (is_task task) db.tasks) StateError.not_found
      guard (is_free t.drive_root_id id) StateError.refuse_replace
      guard (is_free t.drive_root_name name) StateError.refuse_replace
      _ ←
          update_tasks (is_task task)
            (λ t. record t { drive_root_id = id; drive_root_name = name; updated_at = now })
      upsert_object task scope_drive_task_root id name now

unfoldable pub strip_slashes : Str → Str
strip_slashes [] = []
strip_slashes (c ∷ s) = let rest = strip_slashes s in if c == b'/' then rest else c ∷ s

unfoldable pub depth_of : Str → ℕ
depth_of [] = 0
depth_of (c ∷ s) = count_where (λ b. b == b'/') (c ∷ s) + 1

unfoldable pub logical_depth : Str → ℕ
logical_depth value = depth_of (reverse (strip_slashes (reverse (strip_slashes value))))

-- The order of `sort.Slice`; `sort.Slice` is not stable, but no two rows have one path.
unfoldable pub shallow_first : Directory → Directory → Bool
shallow_first a b =
    let i = logical_depth a.logical_path in
    let j = logical_depth b.logical_path in
    if i == j then str_le a.logical_path b.logical_path else ltb i j

unfoldable pub drive_directories : Str → Db → List Directory
drive_directories task db =
    order_by shallow_first (select (λ d. str_eq task d.task_id) db.directories)

unfoldable pub record_directory_drive_id : Str → Str → Str → Str → Store (Unit {0})
record_directory_drive_id task logical drive_id now =
    let id = trim_space drive_id in
    in_tx do
      guard (not (is_empty task) && (not (is_empty logical) && not (is_empty id)))
          StateError.invalid_argument
      db ← get
      d ← expect (first_where (is_directory task logical) db.directories) StateError.not_found
      guard (is_free d.drive_id id) StateError.refuse_replace
      _ ←
          update_directories (is_directory task logical)
            (λ d. record d { drive_id = id; updated_at = now })
      upsert_object task scope_drive_directory id logical now

abbrev pub is_drive_work : FileStatus → Bool
is_drive_work FileStatus.local_ready = true
is_drive_work FileStatus.drive_uploading = true
is_drive_work FileStatus.drive_uploaded = true
is_drive_work _ = false

abbrev pub is_upload_source : FileStatus → Bool
is_upload_source FileStatus.local_ready = true
is_upload_source FileStatus.drive_uploading = true
is_upload_source _ = false

abbrev pub is_verifiable : FileStatus → Bool
is_verifiable FileStatus.drive_uploaded = true
is_verifiable FileStatus.drive_verified = true
is_verifiable _ = false

unfoldable pub drive_upload_candidates : Str → ℕ → Db → List File
drive_upload_candidates task limit db =
    take (or_default 100 limit)
      (order_by logical_le (select (λ f. str_eq task f.task_id && is_drive_work f.status) db.files))

unfoldable pub start_drive_upload : Str → Str → Str → Store (Unit {0})
start_drive_upload task id now =
    exec_one
      (update_files (λ f. is_file task id f && is_upload_source f.status)
        (λ f. record f { status = FileStatus.drive_uploading; last_error = []; updated_at = now }))
      StateError.not_eligible

unfoldable pub record_drive_uploaded : Str → Str → Str → Str → Store (Unit {0})
record_drive_uploaded task id drive_id now =
    let remote = trim_space drive_id in
    in_tx do
      guard (not (is_empty remote)) StateError.invalid_argument
      db ← get
      f ← expect (find_file task id db) StateError.not_found
      guard (is_drive_work f.status) StateError.not_eligible
      guard (is_free f.drive_id remote) StateError.refuse_replace
      lift (validate_file_transition f.status FileStatus.drive_uploaded)
      _ ← update_files (is_file task id) (λ g. record g {
        status = FileStatus.drive_uploaded;
        drive_id = remote;
        last_error = [];
        updated_at = now;
      })
      upsert_object task scope_drive_file remote f.logical_path now

-- The read of MarkDriveVerified and its tests.
unfoldable pub check_verification : Str → Str → Str → Tx (Unit {0})
check_verification task id remote = do
  guard (not (is_empty remote)) StateError.invalid_argument
  db ← get
  f ← expect (find_file task id db) StateError.not_found
  guard (not (is_empty f.drive_id) && str_eq f.drive_id remote) StateError.provenance_mismatch
  guard (is_verifiable f.status) StateError.not_eligible
  lift (validate_file_transition f.status FileStatus.drive_verified)

abbrev pub mark_verified : Str → File → File
mark_verified now g = record g {
  status = FileStatus.drive_verified;
  last_error = [];
  updated_at = now;
}

-- The read and the `UPDATE` are two statements outside a transaction; the store has a single
-- connection.
unfoldable pub mark_drive_verified : Str → Str → Str → Str → Store (Unit {0})
mark_drive_verified task id drive_id now db =
    let remote = trim_space drive_id in
    elim (check_verification task id remote db) [
      | err e ↦ (db, err e)
      | ok _ ↦
          exec_one
            (update_files (λ g. is_file task id g && str_eq g.drive_id remote) (mark_verified now))
            StateError.changed_concurrently db
    ]

unfoldable pub record_drive_failure : Str → Str → Str → Bool → Str → Store (Unit {0})
record_drive_failure task id message permanent now = in_tx do
  db ← get
  f ← expect (find_file task id db) StateError.not_found
  guard (is_drive_work f.status) StateError.not_eligible
  lift (if permanent then validate_file_transition f.status FileStatus.failed_permanent else ok tt)
  _ ← update_files (is_file task id) (λ g. record g {
    status = if permanent then FileStatus.failed_permanent else f.status;
    retry_count = g.retry_count + 1;
    last_error = truncate_state_error message;
    updated_at = now;
  })
  return tt
