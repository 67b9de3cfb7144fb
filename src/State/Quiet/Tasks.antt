-- ===== src/State/Quiet/Tasks.antt =====
-- The methods on the tasks table, and UpsertManifestPage, as changes of the store.
use baidu_drive_mover.Base.{
  refl, ℕ, ◌≡◌, true, List, [], ◌∷◌, ◌++◌, Option, none, some, arith, ◌&&◌, not, if◌then◌else◌,
  is_empty, false,
}
use baidu_drive_mover.Text.{Str}
use baidu_drive_mover.State.Model.{Task, TaskStatus, File}
use baidu_drive_mover.State.Db.{Db, is_file}
use baidu_drive_mover.State.Evolves.{is_late, Evolves, RowsEvolve-append}
use baidu_drive_mover.State.Quiet.{
  Quiet, QuietAt, quiet, Quiet-same, Quiet-files, Quiet-after, update_files-Quiet,
  update_tasks-Quiet, in_tx-Quiet, exec_one-Quiet,
}
use baidu_drive_mover.State.Tasks.{
  create_task, complete_task_scan, update_task_status, update_task_extraction_code,
}
use baidu_drive_mover.State.Manifest.{
  ManifestFile, upsert_directory_row, upsert_manifest_directory, insert_file, refresh_file,
  store_file, upsert_manifest_file, upsert_manifest_directories, upsert_manifest_files,
  upsert_manifest_page,
}

pub create_task-Quiet :
    (t : Task) (status : Option TaskStatus) (now : Str) (db : Db)
    → Quiet db (create_task t status now db).0
unfolding create_task
create_task-Quiet t status now db =
    Quiet-same db (create_task t status now db).0 (ground arith) (ground arith) (ground arith)

pub complete_task_scan-Quiet : (id now : Str) (db : Db) → Quiet db (complete_task_scan id now db).0
unfolding complete_task_scan
complete_task_scan-Quiet id now db = exec_one-Quiet _ _ db (search update_tasks-Quiet)

pub update_task_status-Quiet :
    (id : Str) (status : TaskStatus) (last_error now : Str) (db : Db)
    → Quiet db (update_task_status id status last_error now db).0
unfolding update_task_status
update_task_status-Quiet id status last_error now db =
    exec_one-Quiet _ _ db (search update_tasks-Quiet)

pub update_task_extraction_code-Quiet :
    (id code now : Str) (db : Db) → Quiet db (update_task_extraction_code id code now db).0
unfolding update_task_extraction_code
update_task_extraction_code-Quiet id code now db = exec_one-Quiet _ _ db (search update_tasks-Quiet)

upsert_directory_row-Quiet :
    (task logical now : Str) (db : Db) → QuietAt (upsert_directory_row task logical now) db
unfolding upsert_directory_row
upsert_directory_row-Quiet task logical now db = record {
  holds = λ a after h. Quiet-same db after (ground arith) (ground arith) (ground arith);
}

upsert_manifest_directory-Quiet :
    (task now raw : Str) (db : Db) → QuietAt (upsert_manifest_directory task now raw) db
unfolding upsert_manifest_directory
upsert_manifest_directory-Quiet task now raw db = search (quiet, upsert_directory_row-Quiet) depth 9

insert_file-Quiet :
    (task : Str) (f : File) (db : Db) → is_late f.status ≡ false → QuietAt (insert_file task f) db
unfolding insert_file
insert_file-Quiet task f db early = record {
  holds = λ a after h.
      Quiet-after (Quiet-files db (db.files ++ f ∷ []) (RowsEvolve-append db.files f early))
        (ground arith);
}

refresh-Evolves :
    (task id incoming now : Str) (f : File)
    → is_file task id f ≡ true
    → Evolves f (record f {
      md5 = if is_empty f.md5 && not (is_empty incoming) then incoming else f.md5;
      updated_at = now;
    })
refresh-Evolves task id incoming now f h = ground arith

store_file-Quiet :
    (task now logical parent : Str) (f : ManifestFile) (size : ℕ) (old : Option File) (db : Db)
    → QuietAt (store_file task now logical parent f size old) db
unfolding store_file refresh_file
store_file-Quiet task now logical parent f size (some old) db =
    search (quiet, update_files-Quiet, refresh-Evolves) depth 9
store_file-Quiet task now logical parent f size none db = insert_file-Quiet task _ db refl

upsert_manifest_file-Quiet :
    (task now : Str) (f : ManifestFile) (db : Db) → QuietAt (upsert_manifest_file task now f) db
unfolding upsert_manifest_file
upsert_manifest_file-Quiet task now f db = search (quiet, store_file-Quiet) depth 14

upsert_manifest_directories-Quiet :
    (task now : Str) (ds : List Str) (db : Db)
    → QuietAt (upsert_manifest_directories task now ds) db
unfolding upsert_manifest_directories
upsert_manifest_directories-Quiet task now [] db = search quiet
upsert_manifest_directories-Quiet task now (d ∷ ds) db =
    let later = upsert_manifest_directories-Quiet task now ds in
    search (quiet, upsert_manifest_directory-Quiet, later)

upsert_manifest_files-Quiet :
    (task now : Str) (fs : List ManifestFile) (db : Db)
    → QuietAt (upsert_manifest_files task now fs) db
unfolding upsert_manifest_files
upsert_manifest_files-Quiet task now [] db = search quiet
upsert_manifest_files-Quiet task now (f ∷ fs) db =
    let later = upsert_manifest_files-Quiet task now fs in
    search (quiet, upsert_manifest_file-Quiet, later)

pub upsert_manifest_page-Quiet :
    (task : Str) (ds : List Str) (fs : List ManifestFile) (now : Str) (db : Db)
    → Quiet db (upsert_manifest_page task ds fs now db).0
unfolding upsert_manifest_page
upsert_manifest_page-Quiet task ds fs now db =
    in_tx-Quiet _ db
      (search (quiet, upsert_manifest_directories-Quiet, upsert_manifest_files-Quiet))
