-- ===== src/State/Db.antt =====
-- The tables of internal/state/store.go (schema version 6) as lists of rows, and transactions.
-- A statement runs over the table in the order of its rows. A failing transaction is rolled back:
-- the caller keeps the database that it had.
use baidu_drive_mover.Base.{
  ℕ, Bool, false, ◌&&◌, List, [], ◌∷◌, ◌++◌, Option, none, some, if◌then◌else◌, ◌==◌, Result, ok,
  err, count_where, exists_where, first_where, update_where, concat_map, true, leb, select, take,
  order_by, ◌||◌,
}
use baidu_drive_mover.Text.{Str, bytes, str_eq, trim_space}
use baidu_drive_mover.State.Model.{Task, Directory, File, BatchStatus, StateError}

pub record BatchRow : Type 0 where
  pub task_id : Str
  pub batch_id : Str
  pub logical_parent : Str
  pub baidu_staging_path : Str
  pub status : BatchStatus
  pub file_count : ℕ
  pub total_bytes : ℕ
  pub retry_count : ℕ
  pub last_error : Str
  pub created_at : Str
  pub updated_at : Str

pub record BatchFile : Type 0 where
  pub task_id : Str
  pub batch_id : Str
  pub file_id : Str
  pub ordinal : ℕ

-- A row of owned_objects, and the CleanupObject that is read from it.
pub record CleanupObject : Type 0 where
  pub task_id : Str
  pub scope : Str
  pub object_id : Str
  pub object_path : Str
  pub cleanup_allowed : Bool
  pub cleaned_at : Str
  pub last_error : Str
  pub created_at : Str

pub record Db : Type 0 where
  pub tasks : List Task
  pub directories : List Directory
  pub files : List File
  pub batches : List BatchRow
  pub batch_files : List BatchFile
  pub owned_objects : List CleanupObject

abbrev pub empty_db : Db
empty_db = record {
  tasks = [];
  directories = [];
  files = [];
  batches = [];
  batch_files = [];
  owned_objects = [];
}

-- A method of the store: the database after the call, and what it returns.
abbrev pub Store {ℓ} : Type ℓ → Type ℓ
Store A = Db → Db × Result StateError A

-- The statements of one transaction.
abbrev pub Tx {ℓ} : Type ℓ → Type ℓ
Tx A = Db → Result StateError (A × Db)

-- BeginTx, the body, then Commit; an early return runs the deferred Rollback.
unfoldable pub in_tx {ℓ} : {A : Type ℓ} → Tx A → Store A
in_tx m db = elim (m db) [ ok (a, after) ↦ (after, ok a) | err e ↦ (db, err e) ]

infixl 5 ◌>>=◌ ◌>>◌
unfoldable pub ◌>>=◌ {ℓ κ} : {A : Type ℓ} {B : Type κ} → Tx A → (A → Tx B) → Tx B
◌>>=◌ m f db = elim (m db) [ ok (a, after) ↦ f a after | err e ↦ err e ]

abbrev pub ◌>>◌ {ℓ} : {B : Type ℓ} → Tx (Unit {0}) → Tx B → Tx B
m >> k = m >>= λ _. k

unfoldable pub return {ℓ} : {A : Type ℓ} → A → Tx A
return a db = ok (a, db)

unfoldable pub fail {ℓ} : {A : Type ℓ} → StateError → Tx A
fail e db = err e

unfoldable pub guard : Bool → StateError → Tx (Unit {0})
guard test e db = if test then ok (tt, db) else err e

unfoldable pub get : Tx Db
get db = ok (db, db)

-- A query that must have a row: `sql.ErrNoRows` is an error of the caller's.
unfoldable pub expect {ℓ} : {A : Type ℓ} → Option A → StateError → Tx A
expect o e db = elim o [ none ↦ err e | some a ↦ ok (a, db) ]

unfoldable pub lift {ℓ} : {A : Type ℓ} → Result StateError A → Tx A
lift r db = elim r [ ok a ↦ ok (a, db) | err e ↦ err e ]

-- A method that runs one `UPDATE` outside a transaction, and reports an error unless it affected
-- exactly one row.
unfoldable pub exec_one : Tx ℕ → StateError → Store (Unit {0})
exec_one m e db = elim (m db) [
  | ok (n, after) ↦ (after, if n == 1 then ok tt else err e)
  | err x ↦ (db, err x)
]

-- Opens the statements of a transaction: `unfolding transactions`.
unfoldable pub transactions : Unit {0}
unfolding in_tx exec_one ◌>>=◌ return fail guard get expect lift
transactions = tt

-- The scopes of owned_objects.
abbrev pub scope_local_cache_file : Str
scope_local_cache_file = bytes "local_cache_file"

abbrev pub scope_baidu_batch_dir : Str
scope_baidu_batch_dir = bytes "baidu_batch_dir"

abbrev pub scope_baidu_task_root : Str
scope_baidu_task_root = bytes "baidu_task_root"

abbrev pub scope_drive_task_root : Str
scope_drive_task_root = bytes "drive_task_root"

abbrev pub scope_drive_directory : Str
scope_drive_directory = bytes "drive_directory"

abbrev pub scope_drive_file : Str
scope_drive_file = bytes "drive_file"

-- The `WHERE` clauses by primary key.
unfoldable pub is_task : Str → Task → Bool
is_task id t = str_eq id t.id

unfoldable pub is_file : Str → Str → File → Bool
is_file task id f = str_eq task f.task_id && str_eq id f.file_id

unfoldable pub is_directory : Str → Str → Directory → Bool
is_directory task logical d = str_eq task d.task_id && str_eq logical d.logical_path

unfoldable pub is_batch : Str → Str → BatchRow → Bool
is_batch task id b = str_eq task b.task_id && str_eq id b.batch_id

unfoldable pub is_batch_file : Str → Str → BatchFile → Bool
is_batch_file task batch l = str_eq task l.task_id && str_eq batch l.batch_id

unfoldable pub is_object : Str → Str → Str → CleanupObject → Bool
is_object task scope id o = str_eq task o.task_id && (str_eq scope o.scope && str_eq id o.object_id)

-- `file_id IN (SELECT file_id FROM batch_files WHERE task_id = ? AND batch_id = ?)`.
unfoldable pub in_batch : Db → Str → Str → Str → Bool
unfolding is_batch_file
in_batch db task batch id =
    exists_where (λ l. is_batch_file task batch l && str_eq l.file_id id) db.batch_files

-- The files of a batch that the join of batch_files and files finds: `WHERE task_id = ? AND
-- file_id IN (…)`.
unfoldable pub is_file_of_batch : Db → Str → Str → File → Bool
unfolding in_batch
is_file_of_batch db task batch f = str_eq task f.task_id && in_batch db task batch f.file_id

unfoldable pub find_file : Str → Str → Db → Option File
unfolding is_file
find_file task id db = first_where (is_file task id) db.files

unfoldable pub find_object : Str → Str → Str → Db → Option CleanupObject
unfolding is_object
find_object task scope id db = first_where (is_object task scope id) db.owned_objects

unfoldable pub find_batch : Str → Str → Db → Option BatchRow
unfolding is_batch
find_batch task id db = first_where (is_batch task id) db.batches

-- The statements. `UPDATE` returns RowsAffected.
unfoldable pub update_files : (File → Bool) → (File → File) → Tx ℕ
update_files p f db = ok (count_where p db.files, record db { files = update_where p f db.files })

unfoldable pub update_tasks : (Task → Bool) → (Task → Task) → Tx ℕ
update_tasks p f db = ok (count_where p db.tasks, record db { tasks = update_where p f db.tasks })

unfoldable pub update_directories : (Directory → Bool) → (Directory → Directory) → Tx ℕ
update_directories p f db =
    ok (count_where p db.directories, record db { directories = update_where p f db.directories })

unfoldable pub update_batches : (BatchRow → Bool) → (BatchRow → BatchRow) → Tx ℕ
update_batches p f db =
    ok (count_where p db.batches, record db { batches = update_where p f db.batches })

unfoldable pub update_objects : (CleanupObject → Bool) → (CleanupObject → CleanupObject) → Tx ℕ
update_objects p f db = ok (
  count_where p db.owned_objects,
  record db { owned_objects = update_where p f db.owned_objects },
)

-- The foreign key of every table to tasks(id).
unfoldable pub task_exists : Str → Db → Bool
unfolding is_task
task_exists task db = exists_where (is_task task) db.tasks

-- A new row of owned_objects: cleanup is not allowed.
abbrev pub owned_object : Str → Str → Str → Str → Str → CleanupObject
owned_object task scope id object_path now = record {
  task_id = task;
  scope = scope;
  object_id = id;
  object_path = object_path;
  cleanup_allowed = false;
  cleaned_at = [];
  last_error = [];
  created_at = now;
}

-- `INSERT INTO owned_objects … ON CONFLICT(task_id, scope, object_id) DO NOTHING`.
unfoldable pub register_object : Str → Str → Str → Str → Str → Tx (Unit {0})
unfolding is_object task_exists
register_object task scope id object_path now db =
    if exists_where (is_object task scope id) db.owned_objects
    then ok (tt, db)
    else if task_exists task db
    then ok (
      tt,
      record db {
        owned_objects = db.owned_objects ++ owned_object task scope id object_path now ∷ [];
      },
    )
    else err StateError.constraint_failed

-- The same with `DO UPDATE SET object_path = excluded.object_path`.
unfoldable pub upsert_object : Str → Str → Str → Str → Str → Tx (Unit {0})
unfolding is_object
upsert_object task scope id object_path now db =
    if exists_where (is_object task scope id) db.owned_objects
    then ok (
      tt,
      record db {
        owned_objects =
            update_where (is_object task scope id) (λ o. record o { object_path = object_path })
              db.owned_objects;
      },
    )
    else register_object task scope id object_path now db

-- The regular expression `^[A-Za-z0-9._-]+$`.
is_component_byte : ℕ → Bool
is_component_byte c =
    (leb b'A' c && leb c b'Z')
    || (leb b'a' c && leb c b'z')
    || (leb b'0' c && leb c b'9')
    || c == b'.'
    || c == b'_'
    || c == b'-'

all_component_bytes : Str → Bool
unfolding is_component_byte
all_component_bytes [] = true
all_component_bytes (c ∷ s) = is_component_byte c && all_component_bytes s

unfoldable pub is_safe_component : Str → Bool
unfolding all_component_bytes
is_safe_component [] = false
is_safe_component (c ∷ s) = all_component_bytes (c ∷ s)

abbrev pub baidu_staging_root : Str
baidu_staging_root = bytes "/BaiduDriveMover"

abbrev pub ordinal_le : BatchFile → BatchFile → Bool
ordinal_le a b = leb a.ordinal b.ordinal

-- `batch_files bf JOIN files f … WHERE bf.task_id = ? AND bf.batch_id = ? ORDER BY bf.ordinal`.
unfoldable pub batch_files_of : Db → Str → Str → List File
unfolding is_file is_batch_file
batch_files_of db task batch =
    concat_map (λ l. select (is_file task l.file_id) db.files)
      (order_by ordinal_le (select (is_batch_file task batch) db.batch_files))

-- strings.TrimSpace, then at most 500 bytes.
unfoldable pub truncate_state_error : Str → Str
unfolding trim_space
truncate_state_error value = take 500 (trim_space value)
