-- ===== src/Cleanup/Tests.antt =====
-- The engine run on a small world: the paths that were removed and deleted, and a listing of Baidu.
use baidu_drive_mover.Base.{
  refl, ◌≡◌, ℕ, true, false, List, [], ◌∷◌, none, some, ok, All, if◌then◌else◌, ◌⊎◌, inl, inr,
}
use baidu_drive_mover.Base.Effects.{
  continue, ◌>>=◌, return, raise, lift, expect, ignore, handled, handle,
}
use baidu_drive_mover.Text.{Str, bytes, str_eq}
use baidu_drive_mover.World.{
  World, report, outside_call, read_clock, run_store, of_store, check_context, store_call, query,
  At,
}
use baidu_drive_mover.Baidu.Remote.{RemoteFile}
use baidu_drive_mover.State.Model.{File, FileStatus, BatchStatus}
use baidu_drive_mover.State.Db.{BatchRow, Db, in_batch, find_file}
use baidu_drive_mover.State.Download.{cache_path_of}
use baidu_drive_mover.State.Cleanup.{
  expected_baidu_batch_path, cleanup_candidates, mark_local_cache_cleanup_done,
  mark_baidu_batch_cleanup_done,
}
use baidu_drive_mover.State.CleanupRoot.{
  task_root_cleanup_candidate, unfinished_files, task_root_batch_cleanup_counts,
  is_cleaned_batch_object, authorize_task_root_cleanup, authorize_task_root_tx, allow_task_root,
  update_task_root, read_back_root, expected_baidu_task_root_path,
  mark_baidu_task_root_cleanup_done,
}
use baidu_drive_mover.State.Tests.{program, now, batch, digest}
use baidu_drive_mover.State.Tests.Cleanup.{verified_db, cleanup_batch}
use baidu_drive_mover.Cleanup
use baidu_drive_mover.Cleanup.Permits.{MayDelete}
use baidu_drive_mover.Cleanup.{Engine, Problem, Summary}
use baidu_drive_mover.Cleanup.Safe.{run_cleanup_engine-Permitted}
use baidu_drive_mover.Cleanup.Done.{clean_candidate-AllDone}

-- Opens what the engine computes with.
cleaning : Unit {0}
unfolding program continue ◌>>=◌ return raise lift expect ignore handled handle report outside_call
    read_clock run_store of_store check_context store_call query Cleanup.index_files
    Cleanup.of_problem Cleanup.is_expected Cleanup.check_items Cleanup.sum_bytes Cleanup.fail_with
    Cleanup.is_missing Cleanup.remove_local Cleanup.clean_local Cleanup.clean_locals
    Cleanup.delete_remote Cleanup.delete_batch_directory Cleanup.clean_baidu Cleanup.clean_batch
    Cleanup.clean_candidate Cleanup.clean_first Cleanup.next_batch cleanup_candidates
    mark_local_cache_cleanup_done mark_baidu_batch_cleanup_done Cleanup.delete_root
    Cleanup.root_missing Cleanup.clean_root Cleanup.authorize_root Cleanup.cleanup_task_root
    Cleanup.after_loop Cleanup.finish_run Cleanup.turn Cleanup.run_batches
    Cleanup.run_cleanup_engine task_root_cleanup_candidate unfinished_files
    task_root_batch_cleanup_counts is_cleaned_batch_object authorize_task_root_cleanup
    authorize_task_root_tx allow_task_root update_task_root read_back_root
    expected_baidu_task_root_path mark_baidu_task_root_cleanup_done
cleaning = tt

pub record Paths : Type 0 where
  pub removed : List Str
  pub deleted : List Str

abbrev item : RemoteFile
item = record {
  fs_id = 9;
  name = bytes "a.txt";
  path = bytes "/BaiduDriveMover/t1/b-0123456789abcdef0123/a.txt";
  size = some 5;
  md5 = [];
  is_dir = false;
}

-- The listing of the batch's directory, and of the root, which is empty.
abbrev listing : Str → List RemoteFile
listing path = if str_eq path (bytes "/BaiduDriveMover/t1") then [] else item ∷ []

abbrev pub small_engine : Engine Paths ℕ
small_engine = record {
  outside = record {
    cancelled = λ w. (w, none);
    clock = λ w. (w, now);
    fault = λ _ w. (w, none);
    lost = λ _ w. (w, none);
  };
  remove_temp_file = λ path w. (record w { removed = path ∷ w.removed }, ok tt);
  list_staging_path_for_cleanup = λ path w. (w, ok (listing path));
  delete_staging_path = λ path w. (record w { deleted = path ∷ w.deleted }, ok tt);
  is_not_found = λ _. false;
  message = λ _. bytes "failed";
  max_batches = 0;
}

abbrev pub start : World Paths
start = record { db = verified_db; outside = record { removed = []; deleted = [] } }

cleans :
    ((Cleanup.run_cleanup_engine small_engine (bytes "t1") start).0.outside ≡ record {
      removed = bytes "cache/t1/7.bin" ∷ [];
      deleted =
          bytes "/BaiduDriveMover/t1" ∷ bytes "/BaiduDriveMover/t1/b-0123456789abcdef0123" ∷ [];
    })
unfolding cleaning
cleans = refl

abbrev pub t1 : Str
t1 = bytes "t1"

-- Every removed path is the cache path of some file of the task, and every deleted one the path of
-- a batch of the task, or its root.
abbrev pub OwnPaths : Db → Paths → Type 0
OwnPaths db w =
    All (λ p. (id : Str) × (p ≡ cache_path_of t1 id)) w.removed
    × All
        (λ p.
          ((b : Str) × (expected_baidu_batch_path t1 b ≡ ok p))
          ⊎ (expected_baidu_task_root_path t1 ≡ ok p))
        w.deleted

pub own_path :
    (path : Str) (db : Db)
    → MayDelete db t1 path
    → ((b : Str) × (expected_baidu_batch_path t1 b ≡ ok path))
      ⊎ (expected_baidu_task_root_path t1 ≡ ok path)
own_path path db (MayDelete.batch_directory b o all found allowed exact) = inl (b, exact)
own_path path db (MayDelete.task_root exact finished) = inr exact

run_cleanup_engine-Permitted_example :
    At OwnPaths (Cleanup.run_cleanup_engine small_engine t1 start).0
run_cleanup_engine-Permitted_example =
    run_cleanup_engine-Permitted small_engine digest t1 OwnPaths
      (record {
        cancelled = λ _ _ p. p;
        clock = λ _ _ p. p;
        fault = λ _ _ _ p. p;
        lost = λ _ _ _ p. p;
      })
      (λ c db w p. p) (λ path db w p. p) (λ path db w may p. (((may.id, may.exact), p.0), p.1))
      (λ path db w may p. (p.0, (own_path path db may, p.1))) start (tt, tt)

abbrev pub candidate : BatchRow
candidate = record {
  task_id = t1;
  batch_id = batch;
  logical_parent = bytes "/d";
  baidu_staging_path = bytes "/BaiduDriveMover/t1/b-0123456789abcdef0123";
  status = BatchStatus.staged;
  file_count = 1;
  total_bytes = 5;
  retry_count = 0;
  last_error = [];
  created_at = now;
  updated_at = now;
}

cleans_candidate : (Cleanup.clean_candidate small_engine t1 candidate start).1 ≡ ok cleanup_batch
unfolding cleaning
cleans_candidate = refl

clean_candidate-AllDone_example :
    (cleanup_batch.batch_id ≡ candidate.batch_id)
    × ((id : Str) (f : File)
        → in_batch
            (Cleanup.clean_candidate small_engine t1 candidate start).0.db
            t1
            cleanup_batch.batch_id
            id
          ≡ true
        → find_file t1 id (Cleanup.clean_candidate small_engine t1 candidate start).0.db ≡ some f
        → f.status ≡ FileStatus.done)
clean_candidate-AllDone_example =
    clean_candidate-AllDone small_engine t1 candidate start cleanup_batch cleans_candidate
