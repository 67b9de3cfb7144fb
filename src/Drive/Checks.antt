-- ===== src/Drive/Checks.antt =====
-- internal/drive/upload.go: the errors of Uploader.Run, what it calls, and its tests of rows and
-- listings. `W` is all that is outside of the program, and `E` its errors.
use baidu_drive_mover.Base.{
  ℕ, Bool, true, false, not, ◌||◌, List, [], ◌∷◌, ◌++◌, Option, none, some, Result, ok, err,
  if◌then◌else◌, ◌==◌, is_empty,
}
use baidu_drive_mover.Text.{Str, bytes, str_eq, contains_byte, equal_fold, trim_space}
use baidu_drive_mover.Path.{dir, base, join}
use baidu_drive_mover.World.{Failure, Outside, Act}
use baidu_drive_mover.State.Model.{File}
use baidu_drive_mover.State.Db.{is_safe_component}
use baidu_drive_mover.Drive.Logical.{
  Reason, RemoteItem, validate_logical_path, remote_path, hash_value,
}

-- The errors of an upload: those that are marked as permanent, and the others that the uploader
-- makes itself.
pub data Problem (E : Type 0) : Type 0 where
  permanent : Failure E Reason → Problem E
  no_task_root bad_listing not_reconciled not_observed not_proven not_relisted : Problem E

-- What the uploader calls. A file that is open has a number; `md5_hex` is crypto/md5 in hexadecimal,
-- `parse_items` json.Unmarshal, and `retry_delay` the field RetryDelay or the timer in its place.
pub record Uploader (W E : Type 0) : Type 0 where
  pub outside : Outside W E
  pub run_task : Str → Str → List Str → W → W × Result E Str
  pub parse_items : Str → Option (List RemoteItem)
  pub resolve_temp_relative : Str → W → W × Result E Str
  pub open_temp_file : Str → W → W × Result E ℕ
  pub stat_size : ℕ → W → W × Result E ℕ
  pub read_all : ℕ → W → W × Result E Str
  pub close : ℕ → W → W
  pub md5_hex : Str → Str
  pub retry_delay : ℕ → W → W × Option E
  pub message : Failure E (Problem E) → Str

pub record UploadSummary : Type 0 where
  pub files_verified : ℕ
  pub bytes_verified : ℕ  -- int64

abbrev pub max_safe_upload_attempts : ℕ
max_safe_upload_attempts = 3

unfoldable pub verify_remote_file : RemoteItem → ℕ → Str → Result Reason (Unit {0})
verify_remote_file item size md5 =
    if item.is_dir || is_empty (trim_space item.id)
    then err Reason.not_identified
    else if not (elim item.size [ none ↦ false | some n ↦ n == size ])
    then err Reason.size_differs
    else if is_empty (hash_value item.hashes (bytes "MD5"))
    then err Reason.md5_missing
    else if not (equal_fold (hash_value item.hashes (bytes "MD5")) md5)
    then err Reason.md5_mismatch
    else ok tt

-- The loop over a listing: the items of the name, each a regular file with an ID.
unfoldable pub named_files : Str → List RemoteItem → Result Reason (List RemoteItem)
named_files name [] = ok []
named_files name (item ∷ items) =
    let rest = named_files name items in
    if not (str_eq item.name name)
    then rest
    else if item.is_dir || is_empty (trim_space item.id)
    then err Reason.not_a_regular_file
    else elim rest [ ok matches ↦ ok (item ∷ matches) | err e ↦ err e ]

unfoldable pub of_reason : {E A : Type 0} → Result Reason A → Result (Failure E (Problem E)) A
of_reason (ok a) = ok a
of_reason (err r) = err (Failure.found (Problem.permanent (Failure.found r)))

unfoldable pub reject : {E : Type 0} → Reason → Failure E (Problem E)
reject r = Failure.found (Problem.permanent (Failure.found r))

-- uploadPermanent, of what a call returns.
unfoldable pub mark_permanent :
    {S E A : Type 0} → S × Result (Failure E Reason) A → S × Result (Failure E (Problem E)) A
mark_permanent (s, ok a) = (s, ok a)
mark_permanent (s, err e) = (s, err (Failure.found (Problem.permanent e)))

abbrev pub permanently : {W E A : Type 0} → Act W E Reason A → Act W E (Problem E) A
permanently m s = mark_permanent (m s)

-- errors.As(err, &permanent).
unfoldable pub is_permanent : {E : Type 0} → Failure E (Problem E) → Bool
is_permanent (Failure.found (Problem.permanent _)) = true
is_permanent _ = false

-- The tests of the row that need no call.
unfoldable pub check_metadata : File → Result Reason Str
check_metadata f =
    if not (is_safe_component f.task_id) || not (is_safe_component f.file_id)
    then err Reason.unsafe_identity
    else elim (validate_logical_path f.logical_path false) [
      | err e ↦ err e
      | ok logical ↦
          let parent = if str_eq (dir logical) (bytes ".") then bytes "/" else dir logical in
          let expected = join (bytes "cache" ∷ f.task_id ∷ (f.file_id ++ bytes ".bin") ∷ []) in
          if not (str_eq f.parent_path parent) || not (str_eq f.name (base logical))
          then err Reason.inconsistent_metadata
          else if not (str_eq f.local_cache_path expected)
          then err Reason.unregistered_path
          else ok expected
    ]

-- Where the file is listed: the remote path of its parent.
unfoldable pub listed_path : Str → Str → Result Reason Str
listed_path parent name = elim (validate_logical_path parent true) [
  | err e ↦ err e
  | ok cleaned ↦
      if is_empty name || (contains_byte 0 name || contains_byte b'/' name)
      then err Reason.invalid_filename
      else remote_path cleaned
]

abbrev pub list_flags : List Str
list_flags =
    bytes "--hash"
    ∷ bytes "--hash-type"
    ∷ bytes "MD5"
    ∷ bytes "--no-modtime"
    ∷ bytes "--no-mimetype"
    ∷ []

abbrev pub copy_flags : List Str
copy_flags =
    bytes "--ignore-existing"
    ∷ bytes "--checksum"
    ∷ bytes "--retries"
    ∷ bytes "1"
    ∷ bytes "--low-level-retries"
    ∷ bytes "3"
    ∷ []

unfoldable pub of_check : {E A : Type 0} → Result Reason A → Result (Failure E Reason) A
of_check (ok a) = ok a
of_check (err r) = err (Failure.found r)

-- The only item of a list.
unfoldable pub only_item : List RemoteItem → Reason → Result Reason RemoteItem
only_item (item ∷ []) e = ok item
only_item _ e = err e
