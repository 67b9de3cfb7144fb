-- ===== src/State/Tests/Planning.antt =====
-- The planners at concrete files.
use baidu_drive_mover.Base.{◌≤◌, ◌≡◌, refl, List, [], ◌∷◌, ok, arith, All, flatten, ◌<◌}
use baidu_drive_mover.Text.{bytes}
use baidu_drive_mover.State.Model.{File, FileStatus, Batch, BatchStatus}
use baidu_drive_mover.State.Db.{Db, empty_db}
use baidu_drive_mover.State.Chunks.{plan_chunks, plan_bounded_chunks}
use baidu_drive_mover.State.Chunks.Bounds.{
  IsChunk, IsBoundedChunk, plan_chunks-IsChunk, plan_bounded_chunks-IsBoundedChunk,
}
use baidu_drive_mover.State.Planning.{discovered_files, plan_batches_bounded}
use baidu_drive_mover.State.Planning.Whole.{Holds, plan_batches_bounded_lem}
use baidu_drive_mover.State.Tests.{
  program, digest, play, manifest_calls, staged_file_row, now, batch,
}

abbrev two_files : List File
two_files = staged_file_row ∷ record staged_file_row { file_id = bytes "8"; size = 7 } ∷ []

-- A limit of 10 bytes cuts them into two chunks.
cut_by_bytes :
    plan_bounded_chunks 4 10 two_files
    ≡ (staged_file_row ∷ []) ∷ (record staged_file_row { file_id = bytes "8"; size = 7 } ∷ []) ∷ []
unfolding program
cut_by_bytes = refl

plan_bounded_chunks-IsBoundedChunk_example :
    (flatten (plan_bounded_chunks 4 10 two_files) ≡ two_files)
    × All (IsBoundedChunk 4 10) (plan_bounded_chunks 4 10 two_files)
plan_bounded_chunks-IsBoundedChunk_example =
    plan_bounded_chunks-IsBoundedChunk 4 10 two_files (omega arith) (omega arith, (omega arith, tt))

plan_chunks-IsChunk_example :
    (flatten (plan_chunks 4 two_files) ≡ two_files) × All (IsChunk 4) (plan_chunks 4 two_files)
plan_chunks-IsChunk_example = plan_chunks-IsChunk 4 two_files (omega arith)

abbrev manifest_db : Db
manifest_db = play manifest_calls empty_db

abbrev planned_batch : Batch
planned_batch = record {
  task_id = bytes "t1";
  batch_id = batch;
  logical_parent = bytes "/d";
  baidu_staging_path = bytes "/BaiduDriveMover/t1/b-0123456789abcdef0123";
  status = BatchStatus.pending;
  file_count = 1;
  total_bytes = 5;
  retry_count = 0;
  last_error = [];
  files = record staged_file_row { status = FileStatus.planned; baidu_staging_path = [] } ∷ [];
}

plans_one :
    (plan_batches_bounded digest (bytes "t1") now 100 64 manifest_db).1 ≡ ok (planned_batch ∷ [])
unfolding program
plans_one = refl

plan_batches_bounded_example :
    (1 ≤ 100) × (100 < 500) × Holds (discovered_files (bytes "t1") manifest_db) (planned_batch ∷ [])
plan_batches_bounded_example =
    plan_batches_bounded_lem digest (bytes "t1") now 100 64 manifest_db (planned_batch ∷ [])
      plans_one
