-- ===== src/Cleanup.antt =====
-- internal/cleanup/engine.go: Engine.Run, over the store's database, with the file system below the
-- program's root and the Baidu client as functions. `W` is all that these act on, and `E` their
-- errors.
pub mod Permits
pub mod Safe
pub mod Done
pub mod Tests
use baidu_drive_mover.Base.{
  ℕ, zero, suc, ◌+◌, ◌-◌, Bool, true, false, not, ◌&&◌, ◌||◌, List, [], ◌∷◌, Option, none, some,
  Result, ok, err, if◌then◌else◌, ◌==◌, length, is_empty, exists_where, first_where,
}
use baidu_drive_mover.Base.Effects.{
  Effect, ◌>>=◌, ◌>>◌, return, raise, expect, lift, ignore, handle,
}
use baidu_drive_mover.Text.{Str, str_eq}
use baidu_drive_mover.World.{
  Context, World, Failure, Outside, Act, outside_call, check_context, store_call, query,
}
use baidu_drive_mover.Baidu.Remote.{RemoteFile}
use baidu_drive_mover.State.Model.{File, StateError}
use baidu_drive_mover.State.Db.{Db, BatchRow, CleanupObject}
use baidu_drive_mover.State.Cleanup.{
  CleanupBatch, cleanup_candidates, authorize_batch_cleanup, mark_local_cache_cleanup_done,
  mark_baidu_batch_cleanup_done, record_local_cache_cleanup_failure,
  record_baidu_batch_cleanup_failure, validate_batch_cleanup_completeness, complete_batch_cleanup,
}
use baidu_drive_mover.State.CleanupRoot.{
  task_root_cleanup_candidate, authorize_task_root_cleanup, mark_baidu_task_root_cleanup_done,
  record_baidu_task_root_cleanup_failure,
}

-- The errors that the engine makes itself.
pub data Problem : Type 0 where
  duplicate_identity no_staging_path duplicate_staging_path object_count : Problem
  no_matching_file unexpected_object root_not_empty : Problem

-- The fields of the engine. `is_not_found` is errors.Is(err, baidu.ErrStagingNotFound), `message`
-- the text of an error.
pub record Engine (W E : Type 0) : Type 0 where
  pub outside : Outside W E
  pub remove_temp_file : Str → W → W × Result E (Unit {0})
  pub list_staging_path_for_cleanup : Str → W → W × Result E (List RemoteFile)
  pub delete_staging_path : Str → W → W × Result E (Unit {0})
  pub is_not_found : E → Bool
  pub message : Failure E Problem → Str
  pub max_batches : ℕ  -- 0 where it is not positive

pub record Summary : Type 0 where
  pub batches_done : ℕ
  pub files_done : ℕ
  pub bytes_freed : ℕ  -- int64
  pub task_root_done : Bool

abbrev pub empty_summary : Summary
empty_summary = record { batches_done = 0; files_done = 0; bytes_freed = 0; task_root_done = false }

-- The loop that fills the two maps. They hold the files of the batch, each under a key of its own,
-- so that a look-up in a map is the first file of the list with the key.
unfoldable pub index_files : List File → List File → Result Problem (Unit {0})
index_files seen [] = ok tt
index_files seen (f ∷ fs) =
    let rest = index_files (f ∷ seen) fs in
    if exists_where (λ g. str_eq f.file_id g.file_id) seen
    then err Problem.duplicate_identity
    else if is_empty f.baidu_staging_path
    then err Problem.no_staging_path
    else if exists_where (λ g. str_eq f.baidu_staging_path g.baidu_staging_path) seen
    then err Problem.duplicate_staging_path
    else rest

unfoldable pub of_problem : {E A : Type 0} → Result Problem A → Result (Failure E Problem) A
of_problem (ok a) = ok a
of_problem (err p) = err (Failure.found p)

-- A listed object must be a file of the batch, with its size.
unfoldable pub is_expected : List File → RemoteFile → Bool
is_expected files item = elim (first_where (λ f. str_eq item.path f.baidu_staging_path) files) [
  | none ↦ false
  | some f ↦ not item.is_dir && elim item.size [ none ↦ false | some n ↦ n == f.size ]
]

unfoldable pub check_items : List File → List RemoteFile → Result Problem (Unit {0})
check_items files [] = ok tt
check_items files (item ∷ items) =
    let rest = check_items files items in
    if is_expected files item then rest else err Problem.unexpected_object

unfoldable pub sum_bytes : ℕ → List File → ℕ
sum_bytes total [] = total
sum_bytes total (f ∷ fs) = sum_bytes (total + f.size) fs

module _ {W E : Type 0} (e : Engine W E) where
  -- An error is recorded under the background context, whatever becomes of that, and returned.
  unfoldable pub fail_with :
      {A : Type 0}
      → (Str → Db → Db × Result StateError (Unit {0}))
      → Failure E Problem
      → Act W E Problem A
  fail_with record_failure x = do
    ignore (store_call e.outside Context.background (λ _. record_failure (e.message x)))
    raise x

  unfoldable pub is_missing : Failure E Problem → Bool
  is_missing (Failure.outer x) = e.is_not_found x
  is_missing _ = false

  -- One turn of the loop over the local objects.
  unfoldable pub remove_local : CleanupBatch → CleanupObject → File → Act W E Problem (Unit {0})
  remove_local b o f =
      handle (outside_call (e.remove_temp_file o.object_path))
        (λ _.
          store_call e.outside Context.caller (mark_local_cache_cleanup_done b.task_id f.file_id))
        (fail_with (record_local_cache_cleanup_failure b.task_id f.file_id))

  unfoldable pub clean_local : CleanupBatch → CleanupObject → Act W E Problem (Unit {0})
  clean_local b o = do
    check_context e.outside
    f ←
        expect (first_where (λ g. str_eq o.object_id g.file_id) b.files)
          (Failure.found Problem.no_matching_file)
    if is_empty o.cleaned_at then remove_local b o f else return tt

  unfoldable pub clean_locals : CleanupBatch → List CleanupObject → Act W E Problem (Unit {0})
  clean_locals b [] = return tt
  clean_locals b (o ∷ os) = do clean_local b o; clean_locals b os

  -- A path that is gone already counts as deleted.
  unfoldable pub delete_remote :
      Str → (Str → Db → Db × Result StateError (Unit {0})) → Act W E Problem (Unit {0})
  delete_remote path record_failure =
      handle (outside_call (e.delete_staging_path path)) return
        (λ x. if is_missing x then return tt else fail_with record_failure x)

  -- What is done with the listing of the batch's directory.
  unfoldable pub delete_batch_directory :
      CleanupBatch → List RemoteFile → Act W E Problem (Unit {0})
  delete_batch_directory b items = do
    handle (lift (of_problem (check_items b.files items))) return
        (fail_with (record_baidu_batch_cleanup_failure b.task_id b.batch_id))
    check_context e.outside
    delete_remote b.baidu_object.object_path
        (record_baidu_batch_cleanup_failure b.task_id b.batch_id)
    store_call e.outside Context.caller (mark_baidu_batch_cleanup_done b.task_id b.batch_id)

  unfoldable pub clean_baidu : CleanupBatch → Act W E Problem (Unit {0})
  clean_baidu b = do
    check_context e.outside
    handle (outside_call (e.list_staging_path_for_cleanup b.baidu_object.object_path))
        (delete_batch_directory b)
        (λ x.
          if is_missing x
          then store_call e.outside Context.caller
              (mark_baidu_batch_cleanup_done b.task_id b.batch_id)
          else fail_with (record_baidu_batch_cleanup_failure b.task_id b.batch_id) x)

  unfoldable pub clean_batch : CleanupBatch → Act W E Problem (Unit {0})
  clean_batch b = do
    lift (of_problem (index_files [] b.files))
    if length b.local_objects == length b.files
        then return tt
        else raise (Failure.found Problem.object_count)
    clean_locals b b.local_objects
    if is_empty b.baidu_object.cleaned_at then clean_baidu b else return tt

  -- The root must be empty.
  unfoldable pub delete_root : Str → CleanupObject → List RemoteFile → Act W E Problem Bool
  delete_root task o items = do
    if is_empty items
        then return tt
        else fail_with (record_baidu_task_root_cleanup_failure task)
            (Failure.found Problem.root_not_empty)
    check_context e.outside
    delete_remote o.object_path (record_baidu_task_root_cleanup_failure task)
    store_call e.outside Context.caller (mark_baidu_task_root_cleanup_done task)
    return true

  unfoldable pub root_missing : Str → Act W E Problem Bool
  root_missing task = do
    store_call e.outside Context.caller (mark_baidu_task_root_cleanup_done task)
    return true

  unfoldable pub clean_root : Str → CleanupObject → Act W E Problem Bool
  clean_root task o = do
    check_context e.outside
    handle (outside_call (e.list_staging_path_for_cleanup o.object_path)) (delete_root task o) (λ x.
        if is_missing x
        then root_missing task
        else fail_with (record_baidu_task_root_cleanup_failure task) x)

  unfoldable pub authorize_root : Str → Act W E Problem Bool
  authorize_root task = do
    o ← store_call e.outside Context.caller (λ _. authorize_task_root_cleanup task)
    if is_empty o.cleaned_at then clean_root task o else return true

  unfoldable pub cleanup_task_root : Str → Act W E Problem Bool
  cleanup_task_root task = do
    check_context e.outside
    candidate ← query e.outside Context.caller (λ db. ok (task_root_cleanup_candidate task db))
    if candidate then authorize_root task else return false

  -- The body of the loop of Run, once there is a candidate.
  unfoldable pub clean_candidate : Str → BatchRow → Act W E Problem CleanupBatch
  clean_candidate task row = do
    b ← store_call e.outside Context.caller (authorize_batch_cleanup task row.batch_id)
    check_context e.outside
    clean_batch b
    query e.outside Context.caller (validate_batch_cleanup_completeness task b.batch_id)
    store_call e.outside Context.caller (complete_batch_cleanup task b.batch_id)
    return b

  abbrev pub count_batch : Summary → CleanupBatch → Summary
  count_batch s b = record s {
    batches_done = s.batches_done + 1;
    files_done = s.files_done + length b.files;
    bytes_freed = sum_bytes s.bytes_freed b.files;
  }

  abbrev pub batch_limit : ℕ
  batch_limit = if e.max_batches == 0 then 32 else e.max_batches

  unfoldable pub clean_first : Str → List BatchRow → Act W E Problem (Option CleanupBatch)
  clean_first task [] = return none
  clean_first task (row ∷ _) = do b ← clean_candidate task row; return (some b)

  -- One turn of the loop: the batch that was cleaned, or nothing where there is no candidate.
  unfoldable pub next_batch : Str → ℕ → Act W E Problem (Option CleanupBatch)
  next_batch task left = do
    check_context e.outside
    rows ← query e.outside Context.caller (λ db. ok (cleanup_candidates task left db))
    clean_first task rows

  unfoldable pub after_loop : Str → Act W E Problem Bool
  after_loop task = do check_context e.outside; cleanup_task_root task

  -- What Run returns: the summary so far, and the error if there is one.
  abbrev pub Exit : Type 0
  Exit = Summary × Option (Failure E Problem)

  unfoldable pub finish_run : Summary → World W × Result (Failure E Problem) Bool → World W × Exit
  finish_run s (w, ok done_) = (w, (record s { task_root_done = done_ }, none))
  finish_run s (w, err x) = (w, (s, some x))

  unfoldable pub turn :
      Str
      → Summary
      → (Summary → World W → World W × Exit)
      → World W × Result (Failure E Problem) (Option CleanupBatch)
      → World W × Exit
  turn task s again (w, ok none) = finish_run s (after_loop task w)
  turn task s again (w, ok (some b)) = again (count_batch s b) w
  turn task s again (w, err x) = (w, (s, some x))

  -- The first number is limit - summary.BatchesDone.
  unfoldable pub run_batches : ℕ → Str → Summary → World W → World W × Exit
  run_batches zero task s w = finish_run s (after_loop task w)
  run_batches (suc left) task s w =
      turn task s (λ s1 w1. run_batches left task s1 w1) (next_batch task (suc left) w)

  unfoldable pub run_cleanup_engine : Str → World W → World W × Exit
  run_cleanup_engine task w = run_batches batch_limit task empty_summary w
