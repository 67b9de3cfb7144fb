-- ===== src/State/Planning.antt =====
-- PlanBatches of internal/state/staging_store.go and PlanBatchesBounded of staging_bounded.go: the
-- transaction around the chunks. `sha256_hex` is the hexadecimal SHA-256 digest of a text.
pub mod Whole
use baidu_drive_mover.Base.{
  ℕ, zero, ◌+◌, Bool, true, false, ◌&&◌, ◌||◌, not, List, [], ◌∷◌, ◌++◌, ok, err, if◌then◌else◌,
  ltb, ◌==◌, length, take, select, exists_where, order_by,
}
use baidu_drive_mover.Text.{Str, bytes, str_eq, str_le}
use baidu_drive_mover.Path.{join}
use baidu_drive_mover.State.Model.{File, FileStatus, Batch, BatchStatus, StateError}
use baidu_drive_mover.State.Db.{
  Db, BatchRow, Store, Tx, in_tx, ◌>>=◌, ◌>>◌, return, guard, get, is_file, is_batch, update_files,
  register_object, scope_baidu_batch_dir, scope_baidu_task_root, baidu_staging_root,
  is_safe_component,
}
use baidu_drive_mover.State.Chunks.{two_63, total_bytes, plan_chunks, plan_bounded_chunks}

abbrev pub is_discovered : FileStatus → Bool
is_discovered FileStatus.discovered = true
is_discovered _ = false

-- `ORDER BY parent_path, logical_path`.
abbrev pub parent_first : File → File → Bool
parent_first a b =
    if str_eq a.parent_path b.parent_path
    then str_le a.logical_path b.logical_path
    else str_le a.parent_path b.parent_path

unfoldable pub discovered_files : Str → Db → List File
discovered_files task db =
    order_by parent_first (select (λ f. str_eq task f.task_id && is_discovered f.status) db.files)

-- What is written to the hash: the task, the parent and each file, behind zero bytes.
unfoldable pub hash_input : List File → Str
hash_input [] = []
hash_input (f ∷ fs) = (zero ∷ f.file_id) ++ (zero ∷ f.logical_path) ++ hash_input fs

unfoldable pub deterministic_batch_id : (Str → Str) → Str → Str → List File → Str
deterministic_batch_id sha256_hex task parent files =
    bytes "b-" ++ take 20 (sha256_hex (task ++ (zero ∷ parent) ++ hash_input files))

abbrev pub task_root : Str → Str
task_root task = join (baidu_staging_root ∷ task ∷ [])

abbrev pub mark_planned : Str → File → File
mark_planned now f = record f { status = FileStatus.planned; updated_at = now }

-- The key, and the constraint that a file belongs to one batch.
unfoldable pub insert_batch_file : Str → Str → Str → ℕ → Tx (Unit {0})
insert_batch_file task batch id ordinal db =
    if exists_where (λ l. str_eq task l.task_id && str_eq id l.file_id) db.batch_files
    then err StateError.constraint_failed
    else ok (
      tt,
      record db {
        batch_files =
            db.batch_files
            ++ record { task_id = task; batch_id = batch; file_id = id; ordinal = ordinal } ∷ [];
      },
    )

-- One turn of the loop over a chunk's files.
unfoldable pub plan_file : Str → Str → Str → ℕ → File → Tx (Unit {0})
plan_file task batch now ordinal f = do
  insert_batch_file task batch f.file_id ordinal
  changed ←
      update_files (λ g. is_file task f.file_id g && is_discovered g.status) (mark_planned now)
  guard (changed == 1) StateError.changed_concurrently

-- `for ordinal, file := range files`.
unfoldable pub plan_files : Str → Str → Str → ℕ → List File → Tx (Unit {0})
plan_files task batch now ordinal [] = return tt
plan_files task batch now ordinal (f ∷ fs) = do
  plan_file task batch now ordinal f
  plan_files task batch now (ordinal + 1) fs

-- The key of batches, and its CHECK that the total is not negative.
unfoldable pub insert_batch : BatchRow → Tx (Unit {0})
insert_batch b db =
    if exists_where (is_batch b.task_id b.batch_id) db.batches || not (ltb b.total_bytes two_63)
    then err StateError.constraint_failed
    else ok (tt, record db { batches = db.batches ++ b ∷ [] })

unfoldable pub set_planned : List File → List File
set_planned [] = []
set_planned (f ∷ fs) = record f { status = FileStatus.planned } ∷ set_planned fs

module _ (sha256_hex : Str → Str) (task : Str) (now : Str) where
  -- One turn of the chunk loop; a chunk has a first file, whose parent is the group's.
  unfoldable pub plan_chunk : List File → Tx (List Batch)
  plan_chunk [] = return []
  plan_chunk (f ∷ fs) =
      let files = f ∷ fs in
      let batch = deterministic_batch_id sha256_hex task f.parent_path files in
      let remote = join (task_root task ∷ batch ∷ []) in
      do
        insert_batch (record {
          task_id = task;
          batch_id = batch;
          logical_parent = f.parent_path;
          baidu_staging_path = remote;
          status = BatchStatus.pending;
          file_count = length files;
          total_bytes = total_bytes 0 files;
          retry_count = 0;
          last_error = [];
          created_at = now;
          updated_at = now;
        })
        register_object task scope_baidu_batch_dir batch remote now
        plan_files task batch now 0 files
        return (
            record {
              task_id = task;
              batch_id = batch;
              logical_parent = f.parent_path;
              baidu_staging_path = remote;
              status = BatchStatus.pending;
              file_count = length files;
              total_bytes = total_bytes 0 files;
              retry_count = 0;
              last_error = [];
              files = set_planned files;
            }
            ∷ [])

  unfoldable pub plan_all : List (List File) → Tx (List Batch)
  plan_all [] = return []
  plan_all (c ∷ cs) = do b ← plan_chunk c; bs ← plan_all cs; return (b ++ bs)

  unfoldable pub plan_discovered : (List File → List (List File)) → List File → Tx (List Batch)
  plan_discovered cut [] = return []
  plan_discovered cut (f ∷ fs) = do
    register_object task scope_baidu_task_root task (task_root task) now
    plan_all (cut (f ∷ fs))

  unfoldable pub plan_with : (List File → List (List File)) → ℕ → Store (List Batch)
  plan_with cut max_files = in_tx do
    guard (ltb 0 max_files && ltb max_files 500) StateError.invalid_argument
    guard (is_safe_component task) StateError.unsafe_identity
    db ← get
    plan_discovered cut (discovered_files task db)

  unfoldable pub plan_batches : ℕ → Store (List Batch)
  plan_batches max_files = plan_with (plan_chunks max_files) max_files

  -- A byte limit that is not positive, 0 here, asks for the unbounded planner.
  unfoldable pub plan_batches_bounded : ℕ → ℕ → Store (List Batch)
  plan_batches_bounded max_files max_bytes =
      if max_bytes == 0
      then plan_batches max_files
      else plan_with (plan_bounded_chunks max_files max_bytes) max_files
