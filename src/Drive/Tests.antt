-- ===== src/Drive/Tests.antt =====
-- The uploader run on a small world: one object on Google Drive, and what is known of it.
use baidu_drive_mover.Base.{
  refl, ◌≡◌, ℕ, suc, Bool, true, false, [], ◌∷◌, ◌++◌, Option, none, some, Result, ok, err,
  if◌then◌else◌,
}
use baidu_drive_mover.Base.Effects.{
  continue, ◌>>=◌, return, raise, require, lift, expect, handled, handle, caught,
}
use baidu_drive_mover.Text.{
  Str, bytes, str_eq, has_prefix, strip_prefix, contains_byte, equal_fold, trim_space,
}
use baidu_drive_mover.Path.{clean, split, dir, base, join}
use baidu_drive_mover.World.{
  World, Failure, report, outside_call, read_clock, run_store, of_store, check_context, store_call,
  query, At,
}
use baidu_drive_mover.State.Model.{File, FileStatus}
use baidu_drive_mover.State.Db.{Db, empty_db, find_file, is_safe_component}
use baidu_drive_mover.State.Tasks.{get_task}
use baidu_drive_mover.State.Drive.{
  set_task_drive_root, drive_upload_candidates, mark_drive_verified, record_drive_uploaded,
  record_drive_failure,
}
use baidu_drive_mover.State.Drive.Left.{left_of, verified-left}
use baidu_drive_mover.State.History.{Call}
use baidu_drive_mover.State.Tests.{program, play, now, staged_calls, staged_file_row, cache, digest}
use baidu_drive_mover.Drive.Logical.{
  find_task, RemoteItem, trim_prefix, is_unsafe_component, validate_logical_path, remote_path,
  hash_value,
}
use baidu_drive_mover.Drive.Checks
use baidu_drive_mover.Drive.Checks.{Uploader, UploadSummary, Problem}
use baidu_drive_mover.Drive.Upload
use baidu_drive_mover.Drive.Run
use baidu_drive_mover.Drive.Safe.{run_uploader-Guarded}
use baidu_drive_mover.Drive.Evidence.{Evidence, upload_one-Verified}
use baidu_drive_mover.Drive.Ends.{run_uploader-ends}
use baidu_drive_mover.Drive.Complete.{run_uploader-Complete}

-- Opens what the uploader computes with.
unfoldable pub uploading : Unit {0}
unfolding program continue ◌>>=◌ return raise require lift expect handled handle caught report
    outside_call read_clock run_store of_store check_context store_call query clean split dir base
    join has_prefix strip_prefix contains_byte equal_fold trim_space is_safe_component get_task
    set_task_drive_root drive_upload_candidates mark_drive_verified record_drive_uploaded
    record_drive_failure trim_prefix is_unsafe_component validate_logical_path remote_path
    hash_value Checks.verify_remote_file Checks.named_files Checks.of_reason Checks.reject
    Checks.mark_permanent Checks.is_permanent Checks.check_metadata Checks.listed_path
    Checks.of_check Checks.only_item Upload.close_after Upload.check_cache Upload.verify_local_cache
    Upload.list_named_files Upload.verify_persisted_remote Upload.record_and_verify
    Upload.accept_existing Upload.begin_upload Upload.relist_failed Upload.pause Upload.settle
    Upload.copy_turn Upload.copy_loop Upload.upload_new Upload.upload_listed Upload.upload_one
    Run.record_failed_upload Run.upload_or_record Run.upload_first Run.next_upload Run.upload_turn
    Run.upload_files find_task Run.task_root_id Run.run_with_root Run.run_uploader
uploading = tt

-- There is no object, as far as one knows or by the last listing; there is one; or it was written
-- over.
data Remote : Type 0 where
  unlisted clear present spoiled : Remote

abbrev list_remote : Remote → Remote × Result ℕ Str
list_remote Remote.unlisted = (Remote.clear, ok [])
list_remote Remote.clear = (Remote.clear, ok [])
list_remote Remote.present = (Remote.present, ok (bytes "x"))
list_remote Remote.spoiled = (Remote.spoiled, ok (bytes "x"))

-- A copy that is reported as an error puts the object there all the same.
abbrev copy_remote : Remote → Remote × Result ℕ Str
copy_remote Remote.clear = (Remote.present, err 5)
copy_remote _ = (Remote.spoiled, err 5)

abbrev pub object : RemoteItem
object = record {
  id = bytes "D";
  name = bytes "a.txt";
  path = bytes "a.txt";
  is_dir = false;
  size = some 5;
  hashes = (bytes "md5", bytes " ABC ") ∷ [];
}

-- A command is the listing or the copy.
abbrev uploader_on : {W : Type 0} → (W → W × Result ℕ Str) → (W → W × Result ℕ Str) → Uploader W ℕ
uploader_on list copy = record {
  outside = record {
    cancelled = λ w. (w, none);
    clock = λ w. (w, now);
    fault = λ _ w. (w, none);
    lost = λ _ w. (w, none);
  };
  run_task = λ root command args w. if str_eq command (bytes "lsjson") then list w else copy w;
  parse_items = λ out. some (elim out [ [] ↦ [] | _ ∷ _ ↦ object ∷ [] ]);
  resolve_temp_relative = λ path w. (w, ok path);
  open_temp_file = λ path w. (w, ok 3);
  stat_size = λ h w. (w, ok 5);
  read_all = λ h w. (w, ok (bytes "abc"));
  close = λ h w. w;
  md5_hex = λ content. content;
  retry_delay = λ d w. (w, none);
  message = λ _. bytes "failed";
}

abbrev small_uploader : Uploader Remote ℕ
small_uploader = uploader_on list_remote copy_remote

abbrev pub ready_db : Db
ready_db =
    play
      (staged_calls
        ++ Call.starts_download (bytes "t1") (bytes "7") cache now
          ∷ Call.marks_local_ready (bytes "t1") (bytes "7") cache now
          ∷ Call.sets_task_drive_root (bytes "t1") (bytes "Root") (bytes "R") now
          ∷ [])
      empty_db

abbrev start : World Remote
start = record { db = ready_db; outside = Remote.unlisted }

uploads :
    (Run.run_uploader small_uploader (bytes "t1") start).1
    ≡ some (record { files_verified = 1; bytes_verified = 5 }, none)
unfolding uploading
uploads = refl

copies_once : (Run.run_uploader small_uploader (bytes "t1") start).0.outside ≡ Remote.present
unfolding uploading
copies_once = refl

run_uploader-ends_example :
    (exit : UploadSummary × Option (Failure ℕ (Problem ℕ))) × ((Run.run_uploader small_uploader
        (bytes "t1")
        start).1
      ≡ some exit)
run_uploader-ends_example = run_uploader-ends small_uploader (bytes "t1") start

run_uploader-Complete_example :
    left_of (bytes "t1") (Run.run_uploader small_uploader (bytes "t1") start).0.db ≡ 0
run_uploader-Complete_example =
    run_uploader-Complete small_uploader (bytes "t1") start
      (record { files_verified = 1; bytes_verified = 5 }) uploads

abbrev ready_file : File
ready_file = record staged_file_row { status = FileStatus.local_ready; local_cache_path = cache }

uploads_one : (Upload.upload_one small_uploader (bytes "R") ready_file start).1 ≡ ok true
unfolding uploading
uploads_one = refl

upload_one-Verified_example :
    (e : Evidence small_uploader
      (bytes "R")
      ready_file
      (Upload.upload_one small_uploader (bytes "R") ready_file start).0)
    × (r : File) × (find_file
          (bytes "t1")
          (bytes "7")
          (Upload.upload_one small_uploader (bytes "R") ready_file start).0.db
        ≡ some r)
    × (r.status ≡ FileStatus.drive_verified)
    × (r.drive_id ≡ trim_space e.item.id)
upload_one-Verified_example =
    upload_one-Verified small_uploader (bytes "R") ready_file start true uploads_one

records : (record_drive_uploaded (bytes "t1") (bytes "7") (bytes " D ") now ready_db).1 ≡ ok tt
unfolding uploading
records = refl

verifies :
    (mark_drive_verified
      (bytes "t1")
      (bytes "7")
      (bytes " D ")
      now
      (record_drive_uploaded (bytes "t1") (bytes "7") (bytes " D ") now ready_db).0).1
    ≡ ok tt
unfolding uploading
verifies = refl

verified-left_example :
    suc (
      left_of
        (bytes "t1")
        (mark_drive_verified
          (bytes "t1")
          (bytes "7")
          (bytes " D ")
          now
          (record_drive_uploaded (bytes "t1") (bytes "7") (bytes " D ") now ready_db).0).0)
    ≡ left_of (bytes "t1") ready_db
verified-left_example =
    verified-left (bytes "t1") (bytes "7") (bytes " D ") now now ready_db records verifies

-- The last command: a listing, or another; or a copy has followed something else than a listing.
data Last : Type 0 where
  other listed broken : Last

abbrev list_last : Last → Last × Result ℕ Str
list_last Last.broken = (Last.broken, ok [])
list_last Last.listed = (Last.listed, ok [])
list_last Last.other = (Last.listed, ok [])

abbrev copy_last : Last → Last × Result ℕ Str
copy_last Last.listed = (Last.other, err 5)
copy_last _ = (Last.broken, err 5)

abbrev is_fine : Last → Bool
is_fine Last.broken = false
is_fine _ = true

abbrev IsFine : Last → Type 0
IsFine w = is_fine w ≡ true

abbrev logged_uploader : Uploader Last ℕ
logged_uploader = uploader_on list_last copy_last

list_last-IsFine : (w : Last) → IsFine w → IsFine (list_last w).0
list_last-IsFine Last.broken p = p
list_last-IsFine Last.listed p = p
list_last-IsFine Last.other p = refl

list_last-listed : (w : Last) → IsFine w → (list_last w).0 ≡ Last.listed
list_last-listed Last.broken p = cc
list_last-listed Last.listed p = refl
list_last-listed Last.other p = refl

run_uploader-Guarded_example :
    At
      (λ _. IsFine)
      (Run.run_uploader logged_uploader
        (bytes "t1")
        (record { db = ready_db; outside = Last.other })).0
unfolding str_eq
run_uploader-Guarded_example =
    run_uploader-Guarded {sha256_hex = digest} {P = λ _. IsFine}
      {Clear = λ _ _ _ w. w ≡ Last.listed}
      (record {
        reader = record {
          idle = record {
            cancelled = λ _ _ p. p;
            clock = λ _ _ p. p;
            fault = λ _ _ _ p. p;
            lost = λ _ _ _ p. p;
          };
          resolved = λ _ _ _ p. p;
          opened = λ _ _ _ p. p;
          measured = λ _ _ _ p. p;
          loaded = λ _ _ _ p. p;
          closed = λ _ _ _ p. p;
          delayed = λ _ _ _ p. p;
          listed = λ _ _ _ w p. list_last-IsFine w p;
        };
        stored = λ c db w p. p;
        idle_clear = λ _ _. record {
          cancelled = λ _ _ p. p;
          clock = λ _ _ p. p;
          fault = λ _ _ _ p. p;
          lost = λ _ _ _ p. p;
        };
        started = λ _ _ _ _ _ p. p;
        clear_kept = λ _ _ _ w p. rw p refl;
        cleared = λ _ _ _ _ _ _ w p _ _ _ _. list_last-listed w p;
        copied = λ _ _ _ _ _ w p _ _ _ _. rw p refl;
      })
      (bytes "t1") (record { db = ready_db; outside = Last.other }) refl
