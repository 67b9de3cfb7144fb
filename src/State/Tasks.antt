-- ===== src/State/Tasks.antt =====
-- The tasks table: CreateTask and GetTask of internal/state/store.go, task_store.go, and the two
-- updates of internal/state/manifest_store.go.
use baidu_drive_mover.Base.{
  Bool, true, false, ◌&&◌, ◌||◌, not, List, [], ◌∷◌, ◌++◌, Option, none, some, if◌then◌else◌, ltb,
  ok, err, is_empty, count_where, first_where, order_by, select,
}
use baidu_drive_mover.Text.{Str, str_eq, str_le}
use baidu_drive_mover.State.Model.{Task, TaskStatus, StateError}
use baidu_drive_mover.State.Db.{Db, Store, exec_one, is_task, task_exists, update_tasks}

-- An empty status, `none` here, becomes NEW. `id` is the primary key.
unfoldable pub create_task : Task → Option TaskStatus → Str → Store (Unit {0})
create_task t status now db =
    if is_empty t.id || is_empty t.share_url
    then (db, err StateError.invalid_argument)
    else if task_exists t.id db
    then (db, err StateError.constraint_failed)
    else (
      record db {
        tasks =
            db.tasks
            ++ record t {
              status = elim status [ none ↦ TaskStatus.new | some s ↦ s ];
              created_at = now;
              updated_at = now;
            }
              ∷ [];
      },
      ok tt,
    )

unfoldable pub get_task : Str → Db → Option Task
get_task id db = first_where (is_task id) db.tasks

abbrev pub is_resumable : TaskStatus → Bool
is_resumable TaskStatus.completed = false
is_resumable TaskStatus.failed = false
is_resumable _ = true

-- `ORDER BY updated_at DESC, id DESC`.
abbrev pub newest_first : Task → Task → Bool
newest_first a b =
    if str_eq a.updated_at b.updated_at then str_le b.id a.id else str_le b.updated_at a.updated_at

unfoldable pub list_resumable_tasks : Db → List Task
list_resumable_tasks db = order_by newest_first (select (λ t. is_resumable t.status) db.tasks)

abbrev pub is_completed : TaskStatus → Bool
is_completed TaskStatus.completed = true
is_completed _ = false

unfoldable pub has_non_completed_tasks : Db → Bool
has_non_completed_tasks db = ltb 0 (count_where (λ t. not (is_completed t.status)) db.tasks)

abbrev pub is_scanning : TaskStatus → Bool
is_scanning TaskStatus.scanning = true
is_scanning _ = false

unfoldable pub complete_task_scan : Str → Str → Store (Unit {0})
complete_task_scan id now =
    exec_one
      (update_tasks (λ t. is_task id t && (not t.scan_completed && is_scanning t.status))
        (λ t. record t {
          scan_completed = true;
          status = TaskStatus.paused;
          last_error = [];
          updated_at = now;
        }))
      StateError.not_eligible

unfoldable pub update_task_status : Str → TaskStatus → Str → Str → Store (Unit {0})
update_task_status id status last_error now =
    exec_one
      (update_tasks (is_task id)
        (λ t. record t { status = status; last_error = last_error; updated_at = now }))
      StateError.not_found

unfoldable pub update_task_extraction_code : Str → Str → Str → Store (Unit {0})
update_task_extraction_code id code now =
    exec_one
      (update_tasks (is_task id) (λ t. record t { extraction_code = code; updated_at = now }))
      StateError.not_found
