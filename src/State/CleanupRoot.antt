-- ===== src/State/CleanupRoot.antt =====
-- internal/state/cleanup_root.go: the removal of a task's staging root, after all of its batches.
pub mod Authorized
use baidu_drive_mover.Base.{
  ℕ, Bool, true, false, ◌&&◌, ◌||◌, not, [], ◌∷◌, none, some, if◌then◌else◌, ◌==◌, Result, ok, err,
  is_empty, count_where,
}
use baidu_drive_mover.Text.{Str, str_eq}
use baidu_drive_mover.Path.{join}
use baidu_drive_mover.State.Model.{FileStatus, StateError}
use baidu_drive_mover.State.Db.{
  Db, CleanupObject, Store, Tx, in_tx, ◌>>=◌, ◌>>◌, return, guard, get, expect, is_object,
  find_object, update_objects, scope_baidu_batch_dir, scope_baidu_task_root, is_safe_component,
  baidu_staging_root,
}
use baidu_drive_mover.State.Cleanup.{
  allow_cleanup, mark_cleanup_object_done, record_cleanup_object_failure,
}

abbrev pub is_done : FileStatus → Bool
is_done FileStatus.done = true
is_done _ = false

unfoldable pub expected_baidu_task_root_path : Str → Result StateError Str
expected_baidu_task_root_path task =
    if is_safe_component task
    then ok (join (baidu_staging_root ∷ task ∷ []))
    else err StateError.unsafe_identity

unfoldable pub unfinished_files : Str → Db → ℕ
unfinished_files task db =
    count_where (λ f. str_eq task f.task_id && not (is_done f.status)) db.files

-- Whether a batch directory's row is cleaned.
unfoldable pub is_cleaned_batch_object : Str → CleanupObject → Bool
is_cleaned_batch_object task o =
    (str_eq task o.task_id && str_eq scope_baidu_batch_dir o.scope)
    && (o.cleanup_allowed && not (is_empty o.cleaned_at))

unfoldable pub task_root_batch_cleanup_counts : Str → Db → ℕ × ℕ
task_root_batch_cleanup_counts task db = (
  count_where (λ b. str_eq task b.task_id) db.batches,
  count_where (is_cleaned_batch_object task) db.owned_objects,
)

-- The row of the task's root is one by its key, so MAX(cleaned_at) is that row's.
unfoldable pub baidu_task_root_cleanup_state : Str → Db → Bool × Bool
baidu_task_root_cleanup_state task db = elim (find_object task scope_baidu_task_root task db) [
  | none ↦ (false, false)
  | some o ↦ (true, not (is_empty o.cleaned_at))
]

unfoldable pub task_root_cleanup_candidate : Str → Db → Bool
task_root_cleanup_candidate task db =
    let (registered, cleaned) = baidu_task_root_cleanup_state task db in
    let (batches, cleaned_batches) = task_root_batch_cleanup_counts task db in
    if not registered || cleaned
    then false
    else if not (unfinished_files task db == 0)
    then false
    else batches == cleaned_batches

unfoldable pub update_task_root : Str → Str → Tx (Unit {0})
update_task_root task expected = do
  _ ←
      update_objects
        (λ o. is_object task scope_baidu_task_root task o && str_eq o.object_path expected)
        allow_cleanup
  return tt

unfoldable pub allow_task_root : Str → Str → CleanupObject → Tx (Unit {0})
allow_task_root task expected o =
    if is_empty o.cleaned_at then update_task_root task expected else return tt

unfoldable pub authorize_task_root_tx : Str → Str → Tx CleanupObject
authorize_task_root_tx task expected = do
  db ← get
  guard (unfinished_files task db == 0) StateError.not_eligible
  let (batches, cleaned_batches) = task_root_batch_cleanup_counts task db
  guard (batches == cleaned_batches) StateError.not_eligible
  o ← expect (find_object task scope_baidu_task_root task db) StateError.not_found
  guard (str_eq o.object_path expected) StateError.provenance_mismatch
  allow_task_root task expected o
  return o

-- A root that was cleaned before is returned as it was read; otherwise it is read back.
unfoldable pub read_back_root :
    Str → Str → Db × Result StateError CleanupObject → Db × Result StateError CleanupObject
read_back_root task expected (after, err e) = (after, err e)
read_back_root task expected (after, ok o) =
    if is_empty o.cleaned_at
    then elim (find_object task scope_baidu_task_root task after) [
      | none ↦ (after, err StateError.not_found)
      | some p ↦ (
        after,
        if p.cleanup_allowed && str_eq p.object_path expected
            then ok p
            else err StateError.not_authorized,
      )
    ]
    else (after, ok o)

unfoldable pub authorize_task_root_cleanup : Str → Store CleanupObject
authorize_task_root_cleanup task db = elim (expected_baidu_task_root_path task) [
  | err e ↦ (db, err e)
  | ok expected ↦ read_back_root task expected (in_tx (authorize_task_root_tx task expected) db)
]

unfoldable pub mark_baidu_task_root_cleanup_done : Str → Str → Store (Unit {0})
mark_baidu_task_root_cleanup_done task = mark_cleanup_object_done task scope_baidu_task_root task

unfoldable pub record_baidu_task_root_cleanup_failure : Str → Str → Store (Unit {0})
record_baidu_task_root_cleanup_failure task =
    record_cleanup_object_failure task scope_baidu_task_root task
