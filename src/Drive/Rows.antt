-- ===== src/Drive/Rows.antt =====
-- The rows of the files that internal/drive/upload.go works on: what it has read of a file is still
-- in the store.
use baidu_drive_mover.Base.{
  ℕ, ◌≡◌, refl, ◌⊎◌, inl, inr, ◌&&◌, Bool, List, [], ◌∷◌, All, All-map, All-take-drop, All-order_by,
  Bool-cases, update_where,
}
use baidu_drive_mover.Text.{Str, str_eq}
use baidu_drive_mover.State.Model.{File, FileStatus}
use baidu_drive_mover.State.Db.{Db, is_file, update_files, exec_one}
use baidu_drive_mover.State.Download.{logical_le, or_default}
use baidu_drive_mover.State.Drive.{
  is_upload_source, is_drive_work, start_drive_upload, drive_upload_candidates,
}
use baidu_drive_mover.Stager.Parts.{All-select}

-- A row of the store has what was read of the file, the Drive ID included; only its status may have
-- become that of an upload.
pub record IsRowOf (f r : File) : Type 0 where
  pub same_task : r.task_id ≡ f.task_id
  pub same_id : r.file_id ≡ f.file_id
  pub same_path : r.logical_path ≡ f.logical_path
  pub same_parent : r.parent_path ≡ f.parent_path
  pub same_name : r.name ≡ f.name
  pub same_size : r.size ≡ f.size
  pub same_md5 : r.md5 ≡ f.md5
  pub same_drive : r.drive_id ≡ f.drive_id
  pub uploads : (r.status ≡ f.status) ⊎ (r.status ≡ FileStatus.drive_uploading)

abbrev pub HasRow : File → List File → Type 0
HasRow f [] = ⊥
HasRow f (r ∷ rs) = IsRowOf f r ⊎ HasRow f rs

IsRowOf-refl : (f : File) → IsRowOf f f
IsRowOf-refl f = record {
  same_task = refl;
  same_id = refl;
  same_path = refl;
  same_parent = refl;
  same_name = refl;
  same_size = refl;
  same_md5 = refl;
  same_drive = refl;
  uploads = inl refl;
}

All-HasRow : (rs : List File) → All (λ f. HasRow f rs) rs
All-HasRow [] = tt
All-HasRow (r ∷ rs) = (
  inl (IsRowOf-refl r),
  All-map (λ f. HasRow f rs) (λ f. HasRow f (r ∷ rs)) rs (λ f h. inr h) (All-HasRow rs),
)

-- Every candidate is a row.
pub candidates-HasRow :
    (task : Str) (limit : ℕ) (db : Db)
    → All (λ f. HasRow f db.files) (drive_upload_candidates task limit db)
unfolding drive_upload_candidates
candidates-HasRow task limit db =
    (All-take-drop _ (or_default 100 limit) _ (
      All-order_by logical_le (λ f. HasRow f db.files) _
        (All-select (λ f. HasRow f db.files) (λ f. str_eq task f.task_id && is_drive_work f.status)
          db.files (All-HasRow db.files)))).0

started : Str → File → File
started now r = record r { status = FileStatus.drive_uploading; last_error = []; updated_at = now }

started-IsRowOf : (now : Str) (f r : File) → IsRowOf f r → IsRowOf f (started now r)
unfolding started
started-IsRowOf now f r h = record {
  same_task = h.same_task;
  same_id = h.same_id;
  same_path = h.same_path;
  same_parent = h.same_parent;
  same_name = h.same_name;
  same_size = h.same_size;
  same_md5 = h.same_md5;
  same_drive = h.same_drive;
  uploads = inr refl;
}

update-HasRow :
    (p : File → Bool) (g : File → File) (f : File) (rs : List File)
    → ((r : File) → IsRowOf f r → IsRowOf f (g r))
    → HasRow f rs
    → HasRow f (update_where p g rs)
unfolding update_where
update-HasRow p g f [] kept never = never
update-HasRow p g f (r ∷ rs) kept (inr later) = inr (update-HasRow p g f rs kept later)
update-HasRow p g f (r ∷ rs) kept (inl h) = elim (Bool-cases (p r)) [
  | inl touched ↦ rw touched (inl (kept r h))
  | inr same ↦ rw same (inl h)
]

-- The start of any upload leaves the rows to be found.
pub start_drive_upload-HasRow :
    (f : File) (task id now : Str) (db : Db)
    → HasRow f db.files
    → HasRow f (start_drive_upload task id now db).0.files
unfolding start_drive_upload exec_one update_files started
start_drive_upload-HasRow f task id now db =
    update-HasRow (λ r. is_file task id r && is_upload_source r.status) (started now) f db.files
      (started-IsRowOf now f)
