-- ===== src/State/Download.antt =====
-- internal/state/download_store.go: a file on its way into the local cache.
use baidu_drive_mover.Base.{
  ℕ, ◌+◌, Bool, true, false, ◌&&◌, not, List, [], ◌∷◌, ◌++◌, if◌then◌else◌, ◌==◌, order_by, select,
  take, is_empty,
}
use baidu_drive_mover.Text.{Str, bytes, str_eq, str_le}
use baidu_drive_mover.Path.{join}
use baidu_drive_mover.State.Model.{File, FileStatus, StateError}
use baidu_drive_mover.State.Db.{
  Db, Store, Tx, in_tx, exec_one, ◌>>=◌, ◌>>◌, guard, get, expect, is_file, find_object,
  update_files, register_object, scope_local_cache_file, is_safe_component, truncate_state_error,
}

abbrev pub is_download_source : FileStatus → Bool
is_download_source FileStatus.baidu_staged = true
is_download_source FileStatus.downloading = true
is_download_source _ = false

abbrev pub is_local_ready_source : FileStatus → Bool
is_local_ready_source FileStatus.baidu_staged = true
is_local_ready_source FileStatus.downloading = true
is_local_ready_source FileStatus.local_ready = true
is_local_ready_source _ = false

abbrev pub is_cached : FileStatus → Bool
is_cached FileStatus.downloading = true
is_cached FileStatus.local_ready = true
is_cached FileStatus.drive_uploading = true
is_cached FileStatus.drive_uploaded = true
is_cached FileStatus.drive_verified = true
is_cached FileStatus.cleanup_pending = true
is_cached _ = false

abbrev pub logical_le : File → File → Bool
logical_le a b = str_le a.logical_path b.logical_path

-- `limit` is an int; a limit that is not positive, 0 here, asks for 100.
abbrev pub or_default : ℕ → ℕ → ℕ
or_default default limit = if limit == 0 then default else limit

unfoldable pub download_candidates : Str → ℕ → Db → List File
download_candidates task limit db = take (or_default 100 limit) (
    order_by logical_le
      (select (λ f. str_eq task f.task_id && is_download_source f.status) db.files))

unfoldable pub start_download : Str → Str → Str → Str → Store (Unit {0})
start_download task id cache_path now =
    exec_one
      (update_files (λ f. is_file task id f && is_download_source f.status)
        (λ f. record f {
          status = FileStatus.downloading;
          local_cache_path = cache_path;
          last_error = [];
          updated_at = now;
        }))
      StateError.not_eligible

-- `path.Join("cache", taskID, fileID+".bin")`.
abbrev pub cache_path_of : Str → Str → Str
cache_path_of task id = join (bytes "cache" ∷ task ∷ (id ++ bytes ".bin") ∷ [])

unfoldable pub mark_local_ready_tx : Str → Str → Str → Tx (Unit {0})
mark_local_ready_tx task id now = do
  changed ←
      update_files (λ f. is_file task id f && is_local_ready_source f.status)
        (λ f. record f {
          status = FileStatus.local_ready;
          local_cache_path = cache_path_of task id;
          last_error = [];
          updated_at = now;
        })
  guard (changed == 1) StateError.not_eligible
  register_object task scope_local_cache_file id (cache_path_of task id) now
  db ← get
  o ← expect (find_object task scope_local_cache_file id db) StateError.not_found
  guard
      (str_eq o.object_path (cache_path_of task id)
        && (not o.cleanup_allowed && is_empty o.cleaned_at))
      StateError.provenance_mismatch

unfoldable pub mark_local_ready : Str → Str → Str → Str → Store (Unit {0})
mark_local_ready task id cache_path now = in_tx do
  guard (is_safe_component task && is_safe_component id) StateError.unsafe_identity
  guard (str_eq cache_path (cache_path_of task id)) StateError.path_mismatch
  mark_local_ready_tx task id now

unfoldable pub record_download_failure : Str → Str → Str → Bool → Str → Store (Unit {0})
record_download_failure task id message permanent now =
    exec_one
      (update_files (λ f. is_file task id f && is_download_source f.status)
        (λ f. record f {
          status = if permanent then FileStatus.failed_permanent else FileStatus.downloading;
          retry_count = f.retry_count + 1;
          last_error = truncate_state_error message;
          updated_at = now;
        }))
      StateError.not_eligible

-- `COALESCE(SUM(size), 0)`.
unfoldable pub sum_sizes : List File → ℕ
sum_sizes [] = 0
sum_sizes (f ∷ fs) = f.size + sum_sizes fs

unfoldable pub reserved_cache_bytes : Db → ℕ
reserved_cache_bytes db = sum_sizes (select (λ f. is_cached f.status) db.files)
