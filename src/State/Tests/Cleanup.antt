-- ===== src/State/Tests/Cleanup.antt =====
-- The end of a batch at the run of the parent module.
use baidu_drive_mover.Base.{◌≡◌, refl, false, List, [], ◌∷◌, ◌++◌, some, ok, All, is_empty, true}
use baidu_drive_mover.Text.{Str, bytes}
use baidu_drive_mover.State.Model.{File, FileStatus}
use baidu_drive_mover.State.Db.{
  Db, empty_db, in_batch, find_file, batch_files_of, scope_baidu_batch_dir, scope_local_cache_file,
}
use baidu_drive_mover.State.Safety.Gate.{IsCleared}
use baidu_drive_mover.State.Cleanup.{
  CleanupBatch, authorize_batch_cleanup, mark_cleanup_object_done, complete_batch_cleanup,
}
use baidu_drive_mover.State.Cleanup.Authorized.{IsAuthorized, authorize_batch_cleanup_lem}
use baidu_drive_mover.State.Cleanup.Completed.{IsClosable, mark_done, complete_batch_cleanup_lem}
use baidu_drive_mover.State.Cleanup.Repeated.{mark_cleanup_object_done-twice}
use baidu_drive_mover.State.History.{Call}
use baidu_drive_mover.State.Tests.{
  program, play, staged_calls, drive_calls, cleanup_calls, final_db, staged_file_row, local_object,
  now, batch, cache,
}

abbrev pub verified_db : Db
verified_db = play (staged_calls ++ drive_calls) empty_db

abbrev pub pending_file : File
pending_file = record staged_file_row {
  status = FileStatus.cleanup_pending;
  local_cache_path = cache;
  drive_id = bytes "D";
}

abbrev pub cleanup_batch : CleanupBatch
cleanup_batch = record {
  task_id = bytes "t1";
  batch_id = batch;
  baidu_staging_path = bytes "/BaiduDriveMover/t1/b-0123456789abcdef0123";
  files = pending_file ∷ [];
  local_objects = local_object ∷ [];
  baidu_object = record local_object {
    scope = scope_baidu_batch_dir;
    object_id = batch;
    object_path = bytes "/BaiduDriveMover/t1/b-0123456789abcdef0123";
  };
}

authorizes : (authorize_batch_cleanup (bytes "t1") batch now verified_db).1 ≡ ok cleanup_batch
unfolding program
authorizes = refl

authorize_batch_cleanup_example :
    All IsCleared (batch_files_of verified_db (bytes "t1") batch)
    × (is_empty (batch_files_of verified_db (bytes "t1") batch) ≡ false)
    × IsAuthorized
        (authorize_batch_cleanup (bytes "t1") batch now verified_db).0
        (bytes "t1")
        batch
        cleanup_batch
authorize_batch_cleanup_example =
    authorize_batch_cleanup_lem (bytes "t1") batch now verified_db cleanup_batch authorizes

mark_cleanup_object_done-twice_example :
    mark_cleanup_object_done
      (bytes "t1")
      scope_local_cache_file
      (bytes "7")
      (bytes "U")
      (mark_cleanup_object_done (bytes "t1") scope_local_cache_file (bytes "7") now final_db).0
    ≡ mark_cleanup_object_done (bytes "t1") scope_local_cache_file (bytes "7") now final_db
mark_cleanup_object_done-twice_example =
    mark_cleanup_object_done-twice (bytes "t1") scope_local_cache_file (bytes "7") now (bytes "U")
      final_db refl

abbrev deletion_calls : List Call
deletion_calls =
    Call.marks_cleanup_object_done (bytes "t1") scope_local_cache_file (bytes "7") now
    ∷ Call.marks_cleanup_object_done (bytes "t1") scope_baidu_batch_dir batch now
    ∷ []

abbrev deleted_db : Db
deleted_db = play (staged_calls ++ drive_calls ++ cleanup_calls ++ deletion_calls) empty_db

completes : (complete_batch_cleanup (bytes "t1") batch now deleted_db).1 ≡ ok tt
unfolding program
completes = refl

complete_batch_cleanup_example :
    IsClosable deleted_db (bytes "t1") batch
    × ((id : Str) (f : File)
        → in_batch deleted_db (bytes "t1") batch id ≡ true
        → find_file (bytes "t1") id deleted_db ≡ some f
        → find_file (bytes "t1") id (complete_batch_cleanup (bytes "t1") batch now deleted_db).0
          ≡ some (mark_done now f))
complete_batch_cleanup_example =
    complete_batch_cleanup_lem (bytes "t1") batch now deleted_db completes
