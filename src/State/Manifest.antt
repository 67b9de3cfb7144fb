-- ===== src/State/Manifest.antt =====
-- internal/state/manifest_store.go and internal/manifest/manifest.go: the pages of a scan.
use baidu_drive_mover.Base.{
  ℕ, Bool, true, false, ◌&&◌, ◌||◌, not, List, [], ◌∷◌, ◌++◌, Option, none, some, if◌then◌else◌,
  ◌==◌, Result, ok, err, is_empty, count_where, exists_where, update_where, select,
}
use baidu_drive_mover.Text.{Str, bytes, str_eq, contains_byte, trim_space, equal_fold}
use baidu_drive_mover.Path.{clean, dir, base, is_rooted}
use baidu_drive_mover.State.Model.{File, FileStatus, StateError}
use baidu_drive_mover.State.Db.{
  Db, Store, Tx, in_tx, ◌>>=◌, ◌>>◌, return, guard, get, expect, lift, is_file, is_directory,
  find_file, task_exists, update_files,
}
use baidu_drive_mover.State.Download.{sum_sizes}

-- manifest.File. `Size` is an int64: `none` stands for a negative one.
pub record ManifestFile : Type 0 where
  pub source_id : Str
  pub source_path : Str
  pub logical_path : Str
  pub parent_path : Str
  pub name : Str
  pub size : Option ℕ
  pub md5 : Str

pub record Stats : Type 0 where
  pub directories : ℕ
  pub files : ℕ
  pub bytes : ℕ

unfoldable pub validate_manifest_path : Str → Bool → Result StateError Str
validate_manifest_path raw allow_root =
    if is_empty raw || (contains_byte 0 raw || not (is_rooted raw))
    then err StateError.invalid_path
    else if not (str_eq (clean raw) raw)
    then err StateError.invalid_path
    else if str_eq (clean raw) (bytes "/") && not allow_root
    then err StateError.invalid_path
    else ok (clean raw)

unfoldable pub is_file_at : Str → Str → File → Bool
is_file_at task logical f = str_eq task f.task_id && str_eq logical f.logical_path

unfoldable pub upsert_directory_row : Str → Str → Str → Tx (Unit {0})
upsert_directory_row task logical now db =
    if exists_where (is_directory task logical) db.directories
    then ok (
      tt,
      record db {
        directories =
            update_where (is_directory task logical) (λ d. record d { updated_at = now })
              db.directories;
      },
    )
    else if task_exists task db
    then ok (
      tt,
      record db {
        directories =
            db.directories
            ++ record {
              task_id = task;
              logical_path = logical;
              drive_id = [];
              created_at = now;
              updated_at = now;
            }
              ∷ [];
      },
    )
    else err StateError.constraint_failed

unfoldable pub upsert_manifest_directory : Str → Str → Str → Tx (Unit {0})
upsert_manifest_directory task now raw = do
  logical ← lift (validate_manifest_path raw false)
  db ← get
  guard (not (exists_where (is_file_at task logical) db.files)) StateError.manifest_conflict
  upsert_directory_row task logical now

abbrev pub new_file : Str → Str → Str → Str → ManifestFile → ℕ → File
new_file task logical parent now f size = record {
  task_id = task;
  file_id = f.source_id;
  logical_path = logical;
  parent_path = parent;
  name = f.name;
  size = size;
  md5 = trim_space f.md5;
  status = FileStatus.discovered;
  baidu_staging_path = [];
  local_cache_path = [];
  drive_id = [];
  retry_count = 0;
  last_error = [];
  created_at = now;
  updated_at = now;
}

-- The primary key is known to be free; the logical path is unique, and the task must exist.
unfoldable pub insert_file : Str → File → Tx (Unit {0})
insert_file task f db =
    if not (exists_where (is_file_at task f.logical_path) db.files) && task_exists task db
    then ok (tt, record db { files = db.files ++ f ∷ [] })
    else err StateError.constraint_failed

-- A source ID that is known must describe the same file; an empty MD5 is filled in.
unfoldable pub refresh_file : Str → Str → Str → Str → ManifestFile → ℕ → File → Tx (Unit {0})
refresh_file task now logical parent f size old = do
  guard
      (str_eq old.logical_path logical
        && (str_eq old.parent_path parent && (str_eq old.name f.name && old.size == size)))
      StateError.manifest_conflict
  let incoming = trim_space f.md5
  guard (is_empty old.md5 || (is_empty incoming || equal_fold old.md5 incoming))
      StateError.manifest_conflict
  _ ← update_files (is_file task f.source_id) (λ g. record g {
    md5 = if is_empty g.md5 && not (is_empty incoming) then incoming else g.md5;
    updated_at = now;
  })
  return tt

unfoldable pub store_file : Str → Str → Str → Str → ManifestFile → ℕ → Option File → Tx (Unit {0})
store_file task now logical parent f size (some old) =
    refresh_file task now logical parent f size old
store_file task now logical parent f size none =
    insert_file task (new_file task logical parent now f size)

unfoldable pub upsert_manifest_file : Str → Str → ManifestFile → Tx (Unit {0})
upsert_manifest_file task now f = do
  logical ← lift (validate_manifest_path f.logical_path false)
  parent ← lift (validate_manifest_path f.parent_path true)
  guard (not (is_empty f.source_id) && not (is_empty f.name)) StateError.invalid_argument
  size ← expect f.size StateError.invalid_argument
  guard (str_eq (dir logical) parent && str_eq (base logical) f.name) StateError.manifest_conflict
  db ← get
  guard (not (exists_where (is_directory task logical) db.directories)) StateError.manifest_conflict
  store_file task now logical parent f size (find_file task f.source_id db)

unfoldable pub upsert_manifest_directories : Str → Str → List Str → Tx (Unit {0})
upsert_manifest_directories task now [] = return tt
upsert_manifest_directories task now (d ∷ ds) = do
  upsert_manifest_directory task now d
  upsert_manifest_directories task now ds

unfoldable pub upsert_manifest_files : Str → Str → List ManifestFile → Tx (Unit {0})
upsert_manifest_files task now [] = return tt
upsert_manifest_files task now (f ∷ fs) = do
  upsert_manifest_file task now f
  upsert_manifest_files task now fs

unfoldable pub upsert_manifest_page : Str → List Str → List ManifestFile → Str → Store (Unit {0})
upsert_manifest_page task directories files now =
    in_tx do upsert_manifest_directories task now directories; upsert_manifest_files task now files

unfoldable pub manifest_stats : Str → Db → Stats
manifest_stats task db = record {
  directories = count_where (λ d. str_eq task d.task_id) db.directories;
  files = count_where (λ f. str_eq task f.task_id) db.files;
  bytes = sum_sizes (select (λ f. str_eq task f.task_id) db.files);
}
