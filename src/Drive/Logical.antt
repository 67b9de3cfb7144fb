-- ===== src/Drive/Logical.antt =====
-- internal/drive/path.go, and what tree.go and upload.go share: the items of a listing.
use baidu_drive_mover.Base.{
  ℕ, Bool, true, not, ◌||◌, List, [], ◌∷◌, ◌++◌, Option, none, some, Result, ok, err, if◌then◌else◌,
  is_empty, exists_where,
}
use baidu_drive_mover.Text.{
  Str, bytes, str_eq, has_prefix, strip_prefix, contains_byte, equal_fold, trim_space,
}
use baidu_drive_mover.Path.{clean, split}
use baidu_drive_mover.State.Model.{Task, StateError}
use baidu_drive_mover.State.Db.{Db}
use baidu_drive_mover.State.Tasks.{get_task}

-- The errors that the package makes itself.
pub data Reason : Type 0 where
  invalid_path not_rooted not_canonical root_not_valid unsafe_component : Reason
  unsafe_identity inconsistent_metadata unregistered_path cache_size cache_md5 : Reason
  invalid_filename not_a_regular_file ambiguous id_changed no_longer_present : Reason
  not_eligible not_identified size_differs md5_missing md5_mismatch cache_changed : Reason
  not_exactly_one : Reason

-- `Size` of rclone's JSON is none where it is negative. `Hashes` is a Go map, in the order in which
-- a loop over it happens to read it.
pub record RemoteItem : Type 0 where
  pub id : Str
  pub name : Str
  pub path : Str
  pub is_dir : Bool
  pub size : Option ℕ
  pub hashes : List (Str × Str)

-- strings.TrimPrefix.
unfoldable pub trim_prefix : Str → Str → Str
trim_prefix s prefix = elim (strip_prefix s prefix) [ none ↦ s | some rest ↦ rest ]

unfoldable pub is_unsafe_component : Str → Bool
is_unsafe_component s =
    is_empty s || (str_eq s (bytes ".") || (str_eq s (bytes "..") || contains_byte 0 s))

unfoldable pub validate_logical_path : Str → Bool → Result Reason Str
unfolding trim_prefix is_unsafe_component
validate_logical_path value allow_root =
    if is_empty value || contains_byte 0 value
    then err Reason.invalid_path
    else if not (has_prefix value (bytes "/"))
    then err Reason.not_rooted
    else if not (str_eq (clean value) value)
    then err Reason.not_canonical
    else if str_eq (clean value) (bytes "/")
    then (if allow_root then ok (clean value) else err Reason.root_not_valid)
    else if exists_where is_unsafe_component (split (trim_prefix (clean value) (bytes "/")))
    then err Reason.unsafe_component
    else ok (clean value)

-- rclone.RemoteName and the colon behind it.
abbrev pub remote_root : Str
remote_root = bytes "bdm-drive:"

unfoldable pub remote_path : Str → Result Reason Str
unfolding trim_prefix
remote_path logical = elim (validate_logical_path logical true) [
  | err e ↦ err e
  | ok cleaned ↦ ok (
      if str_eq cleaned (bytes "/")
      then remote_root
      else remote_root ++ trim_prefix cleaned (bytes "/"))
]

unfoldable pub hash_value : List (Str × Str) → Str → Str
hash_value [] name = []
hash_value ((key, value) ∷ hashes) name =
    if equal_fold key name then trim_space value else hash_value hashes name

-- GetTask, for which a task that is not there is an error.
unfoldable pub find_task : Str → Db → Result StateError Task
find_task task db = elim (get_task task db) [ none ↦ err StateError.not_found | some t ↦ ok t ]
