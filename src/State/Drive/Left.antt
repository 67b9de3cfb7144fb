-- ===== src/State/Drive/Left.antt =====
-- internal/state/drive_store.go: how RecordDriveUploaded and MarkDriveVerified change the number of
-- the files of a task that are to be uploaded or verified.
use baidu_drive_mover.Base.{
  ◌≡◌, refl, sym, ap, ◌∙◌, ℕ, suc, ◌+◌, Bool, true, false, List, [], ◌∷◌, some, ok, inl, inr,
  Bool-cases, ◌&&◌, count_where, update_where, first_where, if◌then◌else◌, arith, ok-eq, some-eq,
  subst,
}
use baidu_drive_mover.Text.{Str, str_eq, str_eq_refl, trim_space}
use baidu_drive_mover.State.Model.{File, FileStatus}
use baidu_drive_mover.State.Db.{
  Db, is_file, find_file, update_files, upsert_object, register_object, exec_one,
}
use baidu_drive_mover.State.Rows.{first_where_sound, find-update_same}
use baidu_drive_mover.State.Drive.Verified.{is_owner, mark_drive_verified_rows}
use baidu_drive_mover.State.Invert.{in_tx-ok, get_then, guard_then, expect_then, lift_then}
use baidu_drive_mover.State.Quiet.{>>=-eq-ok}
use baidu_drive_mover.State.Drive.{
  is_drive_work, is_upload_source, start_drive_upload, record_drive_uploaded, mark_drive_verified,
  mark_verified,
}

abbrev bit : Bool → ℕ
bit b = if b then 1 else 0

module _ {A : Type 0} (q : A → Bool) where
  -- An `UPDATE` of rows that stay on their side of the count.
  count_where-update_same :
      (p : A → Bool) (f : A → A) (xs : List A)
      → ((x : A) → p x ≡ true → q (f x) ≡ q x)
      → count_where q (update_where p f xs) ≡ count_where q xs
  unfolding count_where update_where
  count_where-update_same p f [] same = refl
  count_where-update_same p f (x ∷ xs) same = elim (Bool-cases (p x)) [
    | inl hit ↦ ground (arith, same x hit, count_where-update_same p f xs same)
    | inr miss ↦ ground (arith, count_where-update_same p f xs same)
  ]

  untouched :
      (k : A → Bool) (f : A → A) (xs : List A) → count_where k xs ≡ 0 → update_where k f xs ≡ xs
  unfolding count_where update_where
  untouched k f [] h = refl
  untouched k f (x ∷ xs) h = elim (Bool-cases (k x)) [
    | inl hit ↦ absurd (omega (arith, rw hit at h))
    | inr miss ↦ rw miss (ap (λ ys. x ∷ ys) (untouched k f xs (rw miss at h)))
  ]

  -- An `UPDATE` of a single row.
  count_where-update_one :
      (k : A → Bool) (f : A → A) (xs : List A) {r : A}
      → count_where k xs ≡ 1
      → first_where k xs ≡ some r
      → count_where q (update_where k f xs) + bit (q r) ≡ count_where q xs + bit (q (f r))
  unfolding count_where update_where first_where
  count_where-update_one k f [] one found = cc
  count_where-update_one k f (x ∷ xs) {r} one found = elim (Bool-cases (k x)) [
    | inl hit ↦
        let same = some-eq (rw hit at found) in
        rw (hit, untouched k f xs (omega (arith, rw hit at one)))
          (subst
            (λ y. count_where q (f x ∷ xs) + bit (q y) ≡ count_where q (x ∷ xs) + bit (q (f y)))
            same (ground arith))
    | inr miss ↦
        let rest = count_where-update_one k f xs (rw miss at one) (rw miss at found) in
        rw miss (elim (Bool-cases (q x)) [
          | inl counted ↦ rw counted (omega (arith, rest))
          | inr other ↦ rw other rest
        ])
  ]

  -- A query that is more special than another finds the row that the other finds, if it fits.
  first_where-narrow :
      (k : A → Bool) (xs : List A) {r : A}
      → ((x : A) → q x ≡ true → k x ≡ true)
      → first_where k xs ≡ some r
      → q r ≡ true
      → first_where q xs ≡ some r
  unfolding first_where
  first_where-narrow k [] fits found h = cc
  first_where-narrow k (x ∷ xs) {r} fits found h = elim (Bool-cases (k x)) [
    | inl hit ↦
        let same = some-eq (rw hit at found) in
        subst (λ y. first_where q (x ∷ xs) ≡ some y) same
          (rw (subst (λ y. q y ≡ true) (sym same) h) refl)
    | inr miss ↦ elim (Bool-cases (q x)) [
      | inl yes_ ↦ cc (fits x yes_)
      | inr no_ ↦ rw no_ (first_where-narrow k xs fits (rw miss at found) h)
    ]
  ]

  -- The rows that an `UPDATE` takes are those that the query takes behind it.
  count_where-update_marked :
      (k : A → Bool) (f : A → A) (xs : List A)
      → ((x : A) → k x ≡ true → q (f x) ≡ true)
      → ((x : A) → k x ≡ false → q x ≡ false)
      → count_where q (update_where k f xs) ≡ count_where k xs
  unfolding count_where update_where
  count_where-update_marked k f [] marked others = refl
  count_where-update_marked k f (x ∷ xs) marked others = elim (Bool-cases (k x)) [
    | inl hit ↦ ground (arith, marked x hit, count_where-update_marked k f xs marked others)
    | inr miss ↦ ground (arith, others x miss, count_where-update_marked k f xs marked others)
  ]

-- The files of a task that are to be uploaded or verified.
abbrev is_left : Str → File → Bool
is_left task f = str_eq task f.task_id && is_drive_work f.status

abbrev pub left_of : Str → Db → ℕ
left_of task db = count_where (is_left task) db.files

abbrev mark_uploaded : Str → Str → File → File
mark_uploaded remote now g = record g {
  status = FileStatus.drive_uploaded;
  drive_id = remote;
  last_error = [];
  updated_at = now;
}

register_object-files :
    (task scope id path now : Str) (db after : Db)
    → register_object task scope id path now db ≡ ok (tt, after)
    → after.files ≡ db.files
unfolding register_object
register_object-files task scope id path now db after h = ground arith

upsert_object-files :
    (task scope id path now : Str) (db after : Db)
    → upsert_object task scope id path now db ≡ ok (tt, after)
    → after.files ≡ db.files
unfolding upsert_object
upsert_object-files task scope id path now db after h =
    ground (arith, register_object-files task scope id path now db after)

record_drive_uploaded_rows :
    (task id drive_id now : Str) (db : Db)
    → (record_drive_uploaded task id drive_id now db).1 ≡ ok tt
    → (r : File) × (find_file task id db ≡ some r)
      × (is_drive_work r.status ≡ true)
      × ((record_drive_uploaded task id drive_id now db).0.files
          ≡ update_where (is_file task id) (mark_uploaded (trim_space drive_id) now) db.files)
unfolding record_drive_uploaded update_files
record_drive_uploaded_rows task id drive_id now db h =
    let (after, ran, committed) = in_tx-ok _ db h in
    let (_, h1) = guard_then _ _ _ ran in
    let (r, found, h2) = expect_then _ _ _ (get_then _ h1) in
    let (work, h3) = guard_then _ _ _ h2 in
    let (_, h4) = guard_then _ _ _ h3 in
    let (_, _, h5) = lift_then _ _ h4 in
    let (_, mid, updated, h6) = >>=-eq-ok _ _ db h5 in
    (
      r,
      found,
      work,
      ap (λ d. d.files) committed
          ∙ upsert_object-files _ _ _ _ _ mid after h6
          ∙ sym (ap (λ p. p.1.files) (ok-eq updated)),
    )

-- The start of an upload does not change the number.
start_left :
    (task : Str) (f : File)
    → is_upload_source f.status ≡ true
    → str_eq task f.task_id && true ≡ is_left task f
start_left task f h = ground arith

pub start_drive_upload-left :
    (task owner id now : Str) (db : Db)
    → left_of task (start_drive_upload owner id now db).0 ≡ left_of task db
unfolding start_drive_upload exec_one update_files
start_drive_upload-left task owner id now db =
    count_where-update_same (is_left task) (λ f. is_file owner id f && is_upload_source f.status)
      (λ f. record f { status = FileStatus.drive_uploading; last_error = []; updated_at = now })
      db.files (λ f h. start_left task f (ground arith))

module _ (task id drive_id : Str) where
  abbrev remote : Str
  remote = trim_space drive_id

  uploaded_owner :
      (now : Str) (x : File)
      → is_file task id x ≡ true
      → is_owner task id remote (mark_uploaded remote now x) ≡ true
  unfolding is_file
  uploaded_owner now x h = ground (arith, str_eq_refl remote)

  not_owner : (x : File) → is_file task id x ≡ false → is_owner task id remote x ≡ false
  not_owner x h = ground arith

  left_before :
      (r : File) → is_file task id r ≡ true → is_drive_work r.status ≡ true → is_left task r ≡ true
  unfolding is_file
  left_before r h work = ground arith

  left_uploaded :
      (now : Str) (r : File)
      → is_file task id r ≡ true
      → is_left task (mark_uploaded remote now r) ≡ true
  unfolding is_file
  left_uploaded now r h = ground arith

  left_verified : (now : Str) (r : File) → is_left task (mark_verified now r) ≡ false
  left_verified now r = ground arith

  -- An upload that is recorded and then verified leaves one file less.
  pub verified-left :
      (now later : Str) (db : Db)
      → (record_drive_uploaded task id drive_id now db).1 ≡ ok tt
      → (mark_drive_verified task id drive_id later
          (record_drive_uploaded task id drive_id now db).0).1
        ≡ ok tt
      → suc (
          left_of task
            (mark_drive_verified task id drive_id later
              (record_drive_uploaded task id drive_id now db).0).0)
        ≡ left_of task db
  unfolding find_file
  verified-left now later db h h' =
      let (r, found, work, files) = record_drive_uploaded_rows task id drive_id now db h in
      let (_, _, _, _, one, files') = mark_drive_verified_rows task id drive_id later _ h' in
      let k = is_file task id in
      let up = mark_uploaded remote now in
      let one1 = rw files at one in
      let one0 =
        sym (
          count_where-update_marked (is_owner task id remote) k up db.files (uploaded_owner now)
            not_owner)
        ∙ one1 in
      let mine = first_where_sound k db.files found in
      let step = count_where-update_one (is_left task) k up db.files one0 found in
      let found1 = find-update_same task id k up db.files (λ x. (refl, refl)) found in
      let narrow =
        first_where-narrow (is_owner task id remote) k (update_where k up db.files) {r = up r}
          (λ x h. ground arith) (rw mine at found1) (uploaded_owner now r mine) in
      let step' =
        count_where-update_one (is_left task) (is_owner task id remote) (mark_verified later)
          (update_where k up db.files) one1 narrow in
      rw (files', files)
        (omega (
          arith,
          rw (left_before r mine work, left_uploaded now r mine) at step,
          rw (left_uploaded now r mine, left_verified later (up r)) at step',
        ))
