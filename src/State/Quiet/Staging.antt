-- ===== src/State/Quiet/Staging.antt =====
-- The methods of internal/state/staging_store.go, as changes of the store.
use baidu_drive_mover.Base.{◌≡◌, true, false, Bool, List, [], ◌∷◌, arith, ◌&&◌, not, if◌then◌else◌}
use baidu_drive_mover.Text.{Str}
use baidu_drive_mover.State.Model.{File, FileStatus}
use baidu_drive_mover.State.Db.{Db, is_file, in_batch, is_file_of_batch, return}
use baidu_drive_mover.State.Evolves.{Evolves}
use baidu_drive_mover.State.Quiet.{Quiet, QuietAt, quiet, update_files-Quiet, in_tx-Quiet}
use baidu_drive_mover.State.Staging.{
  start_batch, is_stageable, is_confirmable, is_baidu_staged, confirm_consumed, mark_staged_file,
  mark_staged, validate_staged, record_staged_files, complete_batch, fail_files_of_batch,
  fail_batch,
}

stage-Evolves :
    (task batch now : Str) (db : Db) (f : File)
    → (is_file_of_batch db task batch f && is_stageable f.status) ≡ true
    → Evolves f (record f { status = FileStatus.baidu_staging; updated_at = now })
stage-Evolves task batch now db f h = ground arith

pub start_batch-Quiet :
    (task batch now : Str) (db : Db) → Quiet db (start_batch task batch now db).0
unfolding start_batch
start_batch-Quiet task batch now db =
    in_tx-Quiet _ db (search (quiet, update_files-Quiet, stage-Evolves) depth 9)

validate_staged-Quiet :
    (task batch batch_path : Str) (staged : List (Str × Str)) (db : Db)
    → QuietAt (validate_staged task batch batch_path staged) db
unfolding validate_staged
validate_staged-Quiet task batch batch_path [] db = search quiet
validate_staged-Quiet task batch batch_path ((id, remote) ∷ rest) db =
    let later = validate_staged-Quiet task batch batch_path rest in search (quiet, later) depth 9

confirm-Evolves :
    (task batch now id remote : Str) (db : Db) (f : File)
    → (is_file task id f && (in_batch db task batch f.file_id && is_confirmable f.status)) ≡ true
    → Evolves f (record f {
      status = FileStatus.baidu_staged;
      baidu_staging_path = remote;
      last_error = [];
      updated_at = now;
    })
confirm-Evolves task batch now id remote db f h = ground arith

confirm_consumed-Quiet :
    (task id remote : Str) (db : Db) → QuietAt (confirm_consumed task id remote) db
unfolding confirm_consumed
confirm_consumed-Quiet task id remote db = search quiet depth 9

confirm_if-Quiet :
    (b : Bool) (task id remote : Str) (db : Db)
    → QuietAt (if b then return tt else confirm_consumed task id remote) db
confirm_if-Quiet true task id remote db = search quiet
confirm_if-Quiet false task id remote db = confirm_consumed-Quiet task id remote db

mark_staged_file-Quiet :
    (task batch now : Str) (entry : Str × Str) (db : Db)
    → QuietAt (mark_staged_file task batch now entry) db
unfolding mark_staged_file
mark_staged_file-Quiet task batch now (id, remote) db =
    search (quiet, update_files-Quiet, confirm-Evolves, confirm_if-Quiet) depth 9

mark_staged-Quiet :
    (task batch now : Str) (staged : List (Str × Str)) (db : Db)
    → QuietAt (mark_staged task batch now staged) db
unfolding mark_staged
mark_staged-Quiet task batch now [] db = search quiet
mark_staged-Quiet task batch now (entry ∷ rest) db =
    let later = mark_staged-Quiet task batch now rest in
    search (quiet, mark_staged_file-Quiet, later) depth 9

pub record_staged_files-Quiet :
    (task batch : Str) (staged : List (Str × Str)) (now : Str) (db : Db)
    → Quiet db (record_staged_files task batch staged now db).0
unfolding record_staged_files
record_staged_files-Quiet task batch [] now db = in_tx-Quiet _ db (search quiet)
record_staged_files-Quiet task batch (entry ∷ rest) now db =
    in_tx-Quiet _ db (search (quiet, validate_staged-Quiet, mark_staged-Quiet) depth 9)

pub complete_batch-Quiet :
    (task batch now : Str) (db : Db) → Quiet db (complete_batch task batch now db).0
unfolding complete_batch
complete_batch-Quiet task batch now db = in_tx-Quiet _ db (search quiet depth 9)

fail-Evolves :
    (task batch now message : Str) (db : Db) (f : File)
    → (is_file_of_batch db task batch f && not (is_baidu_staged f.status)) ≡ true
    → Evolves f
        (record f { status = FileStatus.failed_permanent; last_error = message; updated_at = now })
fail-Evolves task batch now message db f h = ground arith

fail_files_if-Quiet :
    (b : Bool) (task batch message now : Str) (db : Db)
    → QuietAt (if b then fail_files_of_batch task batch message now else return tt) db
unfolding fail_files_of_batch
fail_files_if-Quiet true task batch message now db =
    search (quiet, update_files-Quiet, fail-Evolves) depth 9
fail_files_if-Quiet false task batch message now db = search quiet

pub fail_batch-Quiet :
    (task batch message : Str) (permanent : Bool) (now : Str) (db : Db)
    → Quiet db (fail_batch task batch message permanent now db).0
unfolding fail_batch
fail_batch-Quiet task batch message permanent now db =
    in_tx-Quiet _ db (search (quiet, fail_files_if-Quiet) depth 9)
