-- ===== src/State/Quiet/Download.antt =====
-- The methods of internal/state/download_store.go, as changes of the store.
use baidu_drive_mover.Base.{◌≡◌, ◌+◌, true, Bool, [], arith, ◌&&◌, if◌then◌else◌}
use baidu_drive_mover.Text.{Str}
use baidu_drive_mover.State.Model.{File, FileStatus}
use baidu_drive_mover.State.Db.{Db, is_file}
use baidu_drive_mover.State.Evolves.{Evolves}
use baidu_drive_mover.State.Quiet.{
  Quiet, QuietAt, quiet, update_files-Quiet, in_tx-Quiet, exec_one-Quiet,
}
use baidu_drive_mover.State.Download.{
  is_download_source, is_local_ready_source, start_download, mark_local_ready_tx, mark_local_ready,
  record_download_failure,
}

download-Evolves :
    (task id cache_path now : Str) (f : File)
    → (is_file task id f && is_download_source f.status) ≡ true
    → Evolves f (record f {
      status = FileStatus.downloading;
      local_cache_path = cache_path;
      last_error = [];
      updated_at = now;
    })
download-Evolves task id cache_path now f h = ground arith

pub start_download-Quiet :
    (task id cache_path now : Str) (db : Db) → Quiet db (start_download task id cache_path now db).0
unfolding start_download
start_download-Quiet task id cache_path now db =
    exec_one-Quiet _ _ db (search (update_files-Quiet, download-Evolves))

ready-Evolves :
    (task id cache_path now : Str) (f : File)
    → (is_file task id f && is_local_ready_source f.status) ≡ true
    → Evolves f (record f {
      status = FileStatus.local_ready;
      local_cache_path = cache_path;
      last_error = [];
      updated_at = now;
    })
ready-Evolves task id cache_path now f h = ground arith

mark_local_ready_tx-Quiet :
    (task id now : Str) (db : Db) → QuietAt (mark_local_ready_tx task id now) db
unfolding mark_local_ready_tx
mark_local_ready_tx-Quiet task id now db =
    search (quiet, update_files-Quiet, ready-Evolves) depth 12

pub mark_local_ready-Quiet :
    (task id cache_path now : Str) (db : Db)
    → Quiet db (mark_local_ready task id cache_path now db).0
unfolding mark_local_ready
mark_local_ready-Quiet task id cache_path now db =
    in_tx-Quiet _ db (search (quiet, mark_local_ready_tx-Quiet) depth 9)

failure-Evolves :
    (task id message now : Str) (permanent : Bool) (f : File)
    → (is_file task id f && is_download_source f.status) ≡ true
    → Evolves f (record f {
      status = if permanent then FileStatus.failed_permanent else FileStatus.downloading;
      retry_count = f.retry_count + 1;
      last_error = message;
      updated_at = now;
    })
failure-Evolves task id message now permanent f h = ground arith

pub record_download_failure-Quiet :
    (task id message : Str) (permanent : Bool) (now : Str) (db : Db)
    → Quiet db (record_download_failure task id message permanent now db).0
unfolding record_download_failure
record_download_failure-Quiet task id message permanent now db =
    exec_one-Quiet _ _ db (search (update_files-Quiet, failure-Evolves))
