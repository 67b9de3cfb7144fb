-- ===== src/State/Drive/Verified.antt =====
-- internal/state/drive_store.go: the rows that MarkDriveVerified and RecordDriveUploaded leave.
use baidu_drive_mover.Base.{
  ◌≡◌, refl, ap, ◌∙◌, Bool, true, some, ok, err≢ok, inl, inr, Result-cases, ◌&&◌, count_where,
  update_where, Bool-cases, ◌==◌, ==→eq, first_where, List, arith,
}
use baidu_drive_mover.Text.{Str, str_eq, str_eq→eq, str_eq_iff, trim_space}
use baidu_drive_mover.State.Model.{File, StateError}
use baidu_drive_mover.State.Db.{Db, is_file, find_file, update_files, exec_one}
use baidu_drive_mover.State.Rows.{first_where_sound, find-update_same}
use baidu_drive_mover.State.Invert.{get_then, guard_then, expect_then}
use baidu_drive_mover.State.Drive.{
  is_verifiable, check_verification, mark_verified, mark_drive_verified,
}

module _ (p : File → Bool) (f : File → File) (e : StateError) (db : Db) where
  pub exec_update-ok :
      (exec_one (update_files p f) e db).1 ≡ ok tt
      → (count_where p db.files ≡ 1)
        × ((exec_one (update_files p f) e db).0 ≡ record db { files = update_where p f db.files })
  unfolding exec_one update_files
  exec_update-ok h = elim (Bool-cases (count_where p db.files == 1)) [
    | inl one ↦ (==→eq _ 1 one, refl)
    | inr other ↦ absurd (err≢ok (rw other at h))
  ]

check_verification-ok :
    (task id remote : Str) (db : Db) {after : Db}
    → check_verification task id remote db ≡ ok (tt, after)
    → (r : File) × (find_file task id db ≡ some r)
      × (r.drive_id ≡ remote)
      × (is_verifiable r.status ≡ true)
unfolding check_verification
check_verification-ok task id remote db h =
    let (_, h1) = guard_then _ _ _ h in
    let (r, found, h2) = expect_then _ _ _ (get_then _ h1) in
    let (owned, h3) = guard_then _ _ _ h2 in
    let (verifiable, _) = guard_then _ _ _ h3 in
    (r, found, str_eq→eq r.drive_id remote (ground arith), verifiable)

verified_row :
    (task id remote now : Str) (files : List File) (r : File)
    → first_where (is_file task id) files ≡ some r
    → r.drive_id ≡ remote
    → first_where (is_file task id) (
        update_where (λ g. is_file task id g && str_eq g.drive_id remote) (mark_verified now) files)
      ≡ some (mark_verified now r)
verified_row task id remote now files r found same =
    let updated =
      find-update_same task id (λ g. is_file task id g && str_eq g.drive_id remote)
        (mark_verified now) files (λ x. (refl, refl)) found in
    rw (first_where_sound (is_file task id) files found, (str_eq_iff r.drive_id remote).1 same) at
      updated

-- The `UPDATE` of MarkDriveVerified.
abbrev pub is_owner : Str → Str → Str → File → Bool
is_owner task id remote g = is_file task id g && str_eq g.drive_id remote

pub mark_drive_verified_rows :
    (task id drive_id now : Str) (db : Db)
    → (mark_drive_verified task id drive_id now db).1 ≡ ok tt
    → (r : File) × (find_file task id db ≡ some r)
      × (r.drive_id ≡ trim_space drive_id)
      × (is_verifiable r.status ≡ true)
      × (count_where (is_owner task id (trim_space drive_id)) db.files ≡ 1)
      × ((mark_drive_verified task id drive_id now db).0.files
          ≡ update_where (is_owner task id (trim_space drive_id)) (mark_verified now) db.files)
unfolding mark_drive_verified
mark_drive_verified_rows task id drive_id now db h =
    elim (Result-cases (check_verification task id (trim_space drive_id) db)) [
      | inl (e, failed) ↦ absurd (err≢ok (rw (failed, mark_drive_verified) at h))
      | inr ((_, after), passed) ↦
          let (r, found, same, verifiable) =
            check_verification-ok task id (trim_space drive_id) db passed in
          let (one, ends) =
            exec_update-ok (is_owner task id (trim_space drive_id)) (mark_verified now)
              StateError.changed_concurrently db (rw (passed, mark_drive_verified) at h) in
          (
            r,
            found,
            same,
            verifiable,
            one,
            rw (passed, mark_drive_verified) (ap (λ d. d.files) ends),
          )
    ]

-- If MarkDriveVerified succeeds, then the row that it finds was uploaded or verified under exactly
-- this ID, and only its status, its error and its time change.
pub mark_drive_verified_lem :
    (task id drive_id now : Str) (db : Db)
    → (mark_drive_verified task id drive_id now db).1 ≡ ok tt
    → (r : File) × (find_file task id db ≡ some r)
      × (r.drive_id ≡ trim_space drive_id)
      × (is_verifiable r.status ≡ true)
      × (find_file task id (mark_drive_verified task id drive_id now db).0
          ≡ some (mark_verified now r))
unfolding find_file
mark_drive_verified_lem task id drive_id now db h =
    let (r, found, same, verifiable, _, ends) =
      mark_drive_verified_rows task id drive_id now db h in
    (
      r,
      found,
      same,
      verifiable,
      ap (first_where (is_file task id)) ends
          ∙ verified_row task id (trim_space drive_id) now db.files r found same,
    )
