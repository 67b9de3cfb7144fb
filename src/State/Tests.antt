-- ===== src/State/Tests.antt =====
-- One file on its way from the manifest to the permission to clean up, run on the model, and the
-- theorems about histories at that run.
pub mod Cleanup
mod Planning
mod Steps
use baidu_drive_mover.Base.{
  is_empty, false, ◌≡◌, refl, true, List, [], ◌∷◌, ◌++◌, none, some, select, count_where,
  exists_where, first_where, update_where, insert_by, order_by, concat_map,
}
use baidu_drive_mover.Text.{Str, bytes, str_eq, str_le, trim_space, contains_byte, equal_fold}
use baidu_drive_mover.Path.{clean, join, dir, base, is_rooted}
use baidu_drive_mover.State.Model.{
  Task, TaskStatus, File, FileStatus, same_status, allowed_file_transitions,
  validate_file_transition,
}
use baidu_drive_mover.State.Db.{
  Db, CleanupObject, empty_db, transactions, is_task, is_file, is_directory, is_batch,
  is_batch_file, is_object, in_batch, is_file_of_batch, find_file, find_object, find_batch,
  update_files, update_tasks, update_directories, update_batches, update_objects, task_exists,
  register_object, upsert_object, is_safe_component, batch_files_of, truncate_state_error,
  scope_local_cache_file,
}
use baidu_drive_mover.State.Tasks.{get_task, create_task, update_task_status}
use baidu_drive_mover.State.Manifest.{
  ManifestFile, validate_manifest_path, is_file_at, upsert_directory_row, upsert_manifest_directory,
  insert_file, refresh_file, store_file, upsert_manifest_file, upsert_manifest_directories,
  upsert_manifest_files, upsert_manifest_page,
}
use baidu_drive_mover.State.Chunks.{
  add_int64, span_parent, chunks, group_chunks, plan_chunks, total_bytes, lt_int64, is_chunk_full,
  extend_chunk, bounded_chunks, plan_bounded_chunks,
}
use baidu_drive_mover.State.Planning.{
  discovered_files, hash_input, deterministic_batch_id, insert_batch_file, plan_file, plan_files,
  insert_batch, set_planned, plan_chunk, plan_all, plan_discovered, plan_with, plan_batches,
  plan_batches_bounded,
}
use baidu_drive_mover.State.Staging.{
  start_batch, staged_file, validate_staged, confirm_consumed, mark_staged_file, mark_staged,
  record_staged_files, staging_confirmation_already_consumed, complete_batch, fail_files_of_batch,
  fail_batch,
}
use baidu_drive_mover.State.Download.{
  sum_sizes, reserved_cache_bytes, start_download, mark_local_ready_tx, mark_local_ready,
}
use baidu_drive_mover.State.Drive.{
  start_drive_upload, record_drive_uploaded, check_verification, mark_drive_verified,
}
use baidu_drive_mover.State.Cleanup.{
  expected_baidu_batch_path, check_cleanup_file, check_cleanup_files, backfill_local_object,
  backfill_local_objects, is_local_object_of_batch, mark_pending_and_allow, check_batch,
  authorize_tx, authorized_local_object, authorized_local_objects, get_authorized_cleanup_batch,
  read_back, authorize_batch_cleanup, is_deletable_scope, mark_cleanup_object_done,
  validate_batch_cleanup_completeness, complete_batch_cleanup,
}
use baidu_drive_mover.State.CleanupRoot.{baidu_task_root_cleanup_state}
use baidu_drive_mover.State.Progress.{count_files_by_status, progress_of, pipeline_progress}
use baidu_drive_mover.State.History.{
  Call, perform, Reaches, next, here, Reaches-IsReleased, WasCleared, Reaches-Evolves,
  Reaches-IsBacked,
}
use baidu_drive_mover.State.Safety.{IsReleased}
use baidu_drive_mover.State.Evolves.{Evolves}

-- Opens everything that the run computes with.
unfoldable pub program : Unit {0}
unfolding transactions select count_where exists_where first_where update_where insert_by order_by
    concat_map str_eq str_le trim_space contains_byte equal_fold clean join dir base is_rooted
    same_status allowed_file_transitions validate_file_transition is_task is_file is_directory
    is_batch is_batch_file is_object in_batch is_file_of_batch find_file find_object find_batch
    update_files update_tasks update_directories update_batches update_objects task_exists
    register_object upsert_object is_safe_component batch_files_of truncate_state_error create_task
    update_task_status validate_manifest_path is_file_at upsert_directory_row
    upsert_manifest_directory insert_file refresh_file store_file upsert_manifest_file
    upsert_manifest_directories upsert_manifest_files upsert_manifest_page add_int64 span_parent
    chunks group_chunks plan_chunks total_bytes discovered_files hash_input deterministic_batch_id
    insert_batch_file plan_file plan_files insert_batch set_planned plan_chunk plan_all
    plan_discovered plan_with plan_batches start_batch staged_file validate_staged confirm_consumed
    mark_staged_file mark_staged record_staged_files staging_confirmation_already_consumed
    complete_batch fail_files_of_batch fail_batch start_download mark_local_ready_tx
    mark_local_ready start_drive_upload record_drive_uploaded check_verification mark_drive_verified
    expected_baidu_batch_path check_cleanup_file check_cleanup_files backfill_local_object
    backfill_local_objects is_local_object_of_batch mark_pending_and_allow check_batch authorize_tx
    authorized_local_object authorized_local_objects get_authorized_cleanup_batch read_back
    authorize_batch_cleanup perform lt_int64 is_chunk_full extend_chunk bounded_chunks
    plan_bounded_chunks plan_batches_bounded is_deletable_scope mark_cleanup_object_done
    validate_batch_cleanup_completeness complete_batch_cleanup sum_sizes reserved_cache_bytes
    get_task baidu_task_root_cleanup_state count_files_by_status progress_of pipeline_progress
program = tt

abbrev pub digest : Str → Str
digest _ = bytes "0123456789abcdef0123456789abcdef"

abbrev pub play : List Call → Db → Db
play [] db = db
play (c ∷ cs) db = play cs (perform digest c db)

play-Reaches :
    (cs : List Call) (start db : Db) → Reaches digest start db → Reaches digest start (play cs db)
play-Reaches [] start db r = r
play-Reaches (c ∷ cs) start db r = play-Reaches cs start (perform digest c db) (next r c)

abbrev pub task : Task
task = record {
  id = bytes "t1";
  share_url = bytes "u";
  extraction_code = [];
  status = TaskStatus.new;
  scan_completed = false;
  drive_root_id = [];
  drive_root_name = [];
  last_error = [];
  created_at = [];
  updated_at = [];
}

abbrev pub manifest_file : ManifestFile
manifest_file = record {
  source_id = bytes "7";
  source_path = bytes "/a.txt";
  logical_path = bytes "/d/a.txt";
  parent_path = bytes "/d";
  name = bytes "a.txt";
  size = some 5;
  md5 = [];
}

abbrev pub now : Str
now = bytes "T"

abbrev pub batch : Str
batch = bytes "b-0123456789abcdef0123"

abbrev pub remote : Str
remote = bytes "/BaiduDriveMover/t1/b-0123456789abcdef0123/a.txt"

abbrev pub cache : Str
cache = bytes "cache/t1/7.bin"

abbrev pub manifest_calls : List Call
manifest_calls =
    Call.creates_task task none now
    ∷ Call.upserts_manifest_page (bytes "t1") (bytes "/d" ∷ []) (manifest_file ∷ []) now
    ∷ []

abbrev pub staged_calls : List Call
staged_calls =
    Call.creates_task task none now
    ∷ Call.upserts_manifest_page (bytes "t1") (bytes "/d" ∷ []) (manifest_file ∷ []) now
    ∷ Call.plans_batches (bytes "t1") now 100
    ∷ Call.starts_batch (bytes "t1") batch now
    ∷ Call.records_staged_files (bytes "t1") batch ((bytes "7", remote) ∷ []) now
    ∷ []

abbrev pub drive_calls : List Call
drive_calls =
    Call.starts_download (bytes "t1") (bytes "7") cache now
    ∷ Call.marks_local_ready (bytes "t1") (bytes "7") cache now
    ∷ Call.starts_drive_upload (bytes "t1") (bytes "7") now
    ∷ Call.records_drive_uploaded (bytes "t1") (bytes "7") (bytes " D ") now
    ∷ Call.marks_drive_verified (bytes "t1") (bytes "7") (bytes "D") now
    ∷ []

abbrev pub cleanup_calls : List Call
cleanup_calls = Call.authorizes_batch_cleanup (bytes "t1") batch now ∷ []

abbrev pub staged_db : Db
staged_db = play staged_calls empty_db

abbrev pub final_db : Db
final_db = play (staged_calls ++ drive_calls ++ cleanup_calls) empty_db

abbrev pub staged_file_row : File
staged_file_row = record {
  task_id = bytes "t1";
  file_id = bytes "7";
  logical_path = bytes "/d/a.txt";
  parent_path = bytes "/d";
  name = bytes "a.txt";
  size = 5;
  md5 = [];
  status = FileStatus.baidu_staged;
  baidu_staging_path = remote;
  local_cache_path = [];
  drive_id = [];
  retry_count = 0;
  last_error = [];
  created_at = now;
  updated_at = now;
}

abbrev pub local_object : CleanupObject
local_object = record {
  task_id = bytes "t1";
  scope = scope_local_cache_file;
  object_id = bytes "7";
  object_path = cache;
  cleanup_allowed = true;
  cleaned_at = [];
  last_error = [];
  created_at = now;
}

is_staged : find_file (bytes "t1") (bytes "7") staged_db ≡ some staged_file_row
unfolding program
is_staged = refl

is_allowed :
    find_object (bytes "t1") scope_local_cache_file (bytes "7") final_db ≡ some local_object
unfolding program
is_allowed = refl

staged_to_final : Reaches digest staged_db final_db
staged_to_final = play-Reaches (drive_calls ++ cleanup_calls) staged_db staged_db here

-- Witnesses of the theorems about histories.
Reaches-IsReleased_example :
    (f : File) × (find_file (bytes "t1") (bytes "7") final_db ≡ some f)
    × IsReleased f
    × ((v : WasCleared digest final_db (bytes "t1") (bytes "7")) × (f.drive_id ≡ v.file.drive_id))
Reaches-IsReleased_example =
    Reaches-IsReleased digest final_db (bytes "t1") (bytes "7") local_object
      (play-Reaches (staged_calls ++ drive_calls ++ cleanup_calls) empty_db empty_db here)
      is_allowed refl

Reaches-Evolves_example :
    (g : File) × (find_file (bytes "t1") (bytes "7") final_db ≡ some g) × Evolves staged_file_row g
Reaches-Evolves_example =
    Reaches-Evolves digest staged_db final_db (bytes "t1") (bytes "7") staged_file_row
      staged_to_final is_staged

is_pending :
    find_file (bytes "t1") (bytes "7") final_db
    ≡ some (record staged_file_row {
      status = FileStatus.cleanup_pending;
      local_cache_path = cache;
      drive_id = bytes "D";
    })
unfolding program
is_pending = refl

Reaches-IsBacked_example : is_empty (bytes "D") ≡ false
Reaches-IsBacked_example =
    Reaches-IsBacked digest final_db (bytes "t1") (bytes "7")
      (record staged_file_row {
        status = FileStatus.cleanup_pending;
        local_cache_path = cache;
        drive_id = bytes "D";
      })
      (play-Reaches (staged_calls ++ drive_calls ++ cleanup_calls) empty_db empty_db here)
      is_pending refl
