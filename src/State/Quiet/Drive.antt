-- ===== src/State/Quiet/Drive.antt =====
-- The methods of internal/state/drive_store.go, as changes of the store.
use baidu_drive_mover.Base.{
  Result-cases, inl, inr, ok, some, false, is_empty, ◌≡◌, true, not, refl, [], arith, ◌&&◌, Bool,
  if◌then◌else◌, &&-both, ◌+◌,
}
use baidu_drive_mover.Text.{Str, str_eq→eq, trim_space}
use baidu_drive_mover.State.Model.{File, FileStatus}
use baidu_drive_mover.State.Db.{Db, is_file, truncate_state_error, find_file}
use baidu_drive_mover.State.Evolves.{Evolves}
use baidu_drive_mover.State.Quiet.{
  Quiet, quiet, update_files-Quiet, update_found-Quiet, in_tx-Quiet, exec_one-Quiet, bind-Quiet,
  guard_knows-Quiet, lift_then-Quiet, read_file-Quiet, Quiet-refl,
}
use baidu_drive_mover.State.Invert.{guard_then, get_then, expect_then}
use baidu_drive_mover.State.Drive.{
  check_verification, mark_verified, is_free, set_task_drive_root, record_directory_drive_id,
  is_drive_work, is_upload_source, start_drive_upload, record_drive_uploaded, is_verifiable,
  mark_drive_verified, record_drive_failure,
}

pub set_task_drive_root-Quiet :
    (task root_name root_id now : Str) (db : Db)
    → Quiet db (set_task_drive_root task root_name root_id now db).0
unfolding set_task_drive_root
set_task_drive_root-Quiet task root_name root_id now db = in_tx-Quiet _ db (search quiet depth 12)

pub record_directory_drive_id-Quiet :
    (task logical drive_id now : Str) (db : Db)
    → Quiet db (record_directory_drive_id task logical drive_id now db).0
unfolding record_directory_drive_id
record_directory_drive_id-Quiet task logical drive_id now db =
    in_tx-Quiet _ db (search quiet depth 12)

upload-Evolves :
    (task id now : Str) (f : File)
    → (is_file task id f && is_upload_source f.status) ≡ true
    → Evolves f
        (record f { status = FileStatus.drive_uploading; last_error = []; updated_at = now })
upload-Evolves task id now f h = ground arith

pub start_drive_upload-Quiet :
    (task id now : Str) (db : Db) → Quiet db (start_drive_upload task id now db).0
unfolding start_drive_upload
start_drive_upload-Quiet task id now db =
    exec_one-Quiet _ _ db (search (update_files-Quiet, upload-Evolves))

uploaded-Evolves :
    (remote now : Str) (f : File)
    → is_drive_work f.status ≡ true
    → is_free f.drive_id remote ≡ true
    → Evolves f (record f {
      status = FileStatus.drive_uploaded;
      drive_id = remote;
      last_error = [];
      updated_at = now;
    })
uploaded-Evolves remote now f work free = ground (arith, str_eq→eq f.drive_id remote)

pub record_drive_uploaded-Quiet :
    (task id drive_id now : Str) (db : Db)
    → Quiet db (record_drive_uploaded task id drive_id now db).0
unfolding record_drive_uploaded
record_drive_uploaded-Quiet task id drive_id now db = in_tx-Quiet _ db (
    guard_knows-Quiet _ db _ _ λ _. read_file-Quiet task id _ _ db λ f found.
      guard_knows-Quiet _ db _ _ λ work. guard_knows-Quiet _ db _ _ λ free. lift_then-Quiet _ db _ (
        bind-Quiet _ _ db
          (update_found-Quiet db task id f _ _ found (λ x h. h) (λ x. (refl, refl))
            (uploaded-Evolves (trim_space drive_id) now f work free))
          (search quiet)))

identified_present :
    (f : File) (same : Bool)
    → (not (is_empty f.drive_id) && same) ≡ true
    → is_empty f.drive_id ≡ false
identified_present f same h = ground arith

verified-Evolves :
    (now : Str) (f : File)
    → is_verifiable f.status ≡ true
    → is_empty f.drive_id ≡ false
    → Evolves f (record f { status = FileStatus.drive_verified; last_error = []; updated_at = now })
verified-Evolves now f h present = ground arith

check_verification_facts :
    (task id remote : Str) (db after : Db) (a : Unit {0})
    → check_verification task id remote db ≡ ok (a, after)
    → (f : File) × (find_file task id db ≡ some f)
      × (is_verifiable f.status ≡ true)
      × (is_empty f.drive_id ≡ false)
unfolding check_verification
check_verification_facts task id remote db after a h =
    let (_, h1) = guard_then _ _ _ h in
    let h2 = get_then _ h1 in
    let (f, found, h3) = expect_then _ _ _ h2 in
    let (identified, h4) = guard_then _ _ _ h3 in
    let (verifiable, _) = guard_then _ _ _ h4 in
    (f, found, verifiable, identified_present f _ identified)

pub mark_drive_verified-Quiet :
    (task id drive_id now : Str) (db : Db)
    → Quiet db (mark_drive_verified task id drive_id now db).0
unfolding mark_drive_verified
mark_drive_verified-Quiet task id drive_id now db =
    elim (Result-cases (check_verification task id (trim_space drive_id) db)) [
      | inl (e, failed) ↦ rw (failed, mark_drive_verified) (Quiet-refl db)
      | inr ((a, after), passed) ↦
          let (f, found, verifiable, present) =
            check_verification_facts task id (trim_space drive_id) db after a passed in
          rw (passed, mark_drive_verified)
            (exec_one-Quiet _ _ db (
              update_found-Quiet db task id f _ (mark_verified now) found (λ x h. (&&-both _ _ h).0)
                (λ x. (refl, refl)) (verified-Evolves now f verifiable present)))
    ]

drive_failure-Evolves :
    (message now : Str) (permanent : Bool) (f : File)
    → Evolves f (record f {
      status = if permanent then FileStatus.failed_permanent else f.status;
      retry_count = f.retry_count + 1;
      last_error = message;
      updated_at = now;
    })
drive_failure-Evolves message now permanent f = ground arith

pub record_drive_failure-Quiet :
    (task id message : Str) (permanent : Bool) (now : Str) (db : Db)
    → Quiet db (record_drive_failure task id message permanent now db).0
unfolding record_drive_failure
record_drive_failure-Quiet task id message permanent now db = in_tx-Quiet _ db (
    read_file-Quiet task id _ _ db λ f found. guard_knows-Quiet _ db _ _ λ _.
      lift_then-Quiet _ db _ (
        bind-Quiet _ _ db
          (update_found-Quiet db task id f _ _ found (λ x h. h) (λ x. (refl, refl))
            (drive_failure-Evolves (truncate_state_error message) now permanent f))
          (search quiet)))
